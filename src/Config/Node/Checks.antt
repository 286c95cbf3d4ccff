-- ===== src/Config/Node/Checks.antt =====
-- What the checks of crates/config/src/node.rs let through.
use superquery_node.Common.{
  Bool-cases, i64_max, All, ok, ensure, >>=-eq-ok, String, ℕ, ◌≤◌, ◌<◌, ◌≡◌, refl, ◌≢◌, ◌↔◌, inl,
  inr, true, false, not, ◌&&◌, ◌||◌, Option, none, some, List, [], ◌∷◌, arith,
}
use superquery_node.Config.Node.{
  check_budgets, check_range, validate, NodeConfig, exceeds_bigint, budgets, disabled, is_enabled,
  HistoricalMode, by_height, by_timestamp, heights_exceed_bigint, ingest_only_is_finalized,
  resolved_workers,
}

-- A height, if one is given, that fits a PostgreSQL bigint.
abbrev pub FitsBigint : Option ℕ → Type 0
FitsBigint none = Unit
FitsBigint (some height) = height ≤ i64_max

abbrev pub InOrder : Option ℕ → Option ℕ → Type 0
InOrder (some start) (some end) = start ≤ end
InOrder _ _ = Unit

abbrev pub IsPositive : String × ℕ → Type 0
IsPositive budget = 0 < budget.1

-- The number of workers, set or else what the machine answers, is not 0.
abbrev pub HasWorkers : Option ℕ → Option ℕ → Type 0
HasWorkers (some workers) parallelism = 0 < workers
HasWorkers none (some n) = 0 < n
HasWorkers none none = Unit

abbrev pub HasBudgets : Option ℕ → NodeConfig → Type 0
HasBudgets parallelism config =
    (0 < config.batch_size)
    × (0 < config.max_in_flight)
    × (0 < config.queue_capacity)
    × (0 < config.rpc_timeout_secs)
    × (0 < config.rpc_max_retries)
    × HasWorkers config.workers parallelism
    × (0 < config.query_limit)
    × (0 < config.mapping_fuel)
    × (0 < config.mapping_timeout_ms)
    × (0 < config.mapping_memory_mb)

abbrev pub IsValid : Option ℕ → NodeConfig → Type 0
IsValid parallelism config =
    HasBudgets parallelism config
    × FitsBigint config.start_height
    × FitsBigint config.end_height
    × InOrder config.start_height config.end_height
    × (config.unfinalized_blocks ≡ true
        → (config.ingest_only ≡ false) × (config.historical ≢ disabled))
    × (config.batch_size ≤ config.queue_capacity)

check_budgets_iff :
    (budgets : List (String × ℕ)) → (check_budgets budgets ≡ ok tt) ↔ All IsPositive budgets
unfolding check_budgets
check_budgets_iff [] = ((λ _. tt), (λ _. refl))
check_budgets_iff ((name, value) ∷ rest) =
    let others = check_budgets_iff rest in
    (
      (λ e. (ground (arith, e), others.0 (ground (arith, e)))),
      (λ (h, hs). ground (arith, h, others.1 hs)),
    )

resolved_workers_iff :
    (workers parallelism : Option ℕ) (config : NodeConfig)
    → config.workers ≡ workers
    → (0 < resolved_workers parallelism config) ↔ HasWorkers workers parallelism
unfolding resolved_workers
resolved_workers_iff (some w) parallelism config e = rw e ((λ h. h), (λ h. h))
resolved_workers_iff none (some n) config e = rw e ((λ h. h), (λ h. h))
resolved_workers_iff none none config e = rw e ((λ h. tt), (λ h. omega arith))

budgets_iff :
    (parallelism : Option ℕ) (config : NodeConfig)
    → All IsPositive (budgets parallelism config) ↔ HasBudgets parallelism config
unfolding budgets
budgets_iff parallelism config =
    let workers = resolved_workers_iff config.workers parallelism config refl in
    (
      (λ (a, (b, (c, (d, (e, (w, (f, (g, (h, (i, u)))))))))).
          (a, b, c, d, e, workers.0 w, f, g, h, i)),
      (λ (a, b, c, d, e, w, f, g, h, i).
          (a, (b, (c, (d, (e, (workers.1 w, (f, (g, (h, (i, tt))))))))))),
    )

exceeds_bigint_iff : (h : Option ℕ) → (exceeds_bigint h ≡ false) ↔ FitsBigint h
unfolding exceeds_bigint
exceeds_bigint_iff none = ((λ _. tt), (λ _. refl))
exceeds_bigint_iff (some h) = ((λ e. ground arith), (λ e. ground arith))

check_range_iff : (start end : Option ℕ) → (check_range start end ≡ ok tt) ↔ InOrder start end
unfolding check_range
check_range_iff none none = ((λ _. tt), (λ _. refl))
check_range_iff none (some e) = ((λ _. tt), (λ _. refl))
check_range_iff (some s) none = ((λ _. tt), (λ _. refl))
check_range_iff (some s) (some e) = ((λ h. ground arith), (λ h. ground arith))

is_enabled_iff : (mode : HistoricalMode) → (is_enabled mode ≡ true) ↔ (mode ≢ disabled)
unfolding is_enabled
is_enabled_iff by_height = ((λ _. λ d. cc), (λ _. refl))
is_enabled_iff by_timestamp = ((λ _. λ d. cc), (λ _. refl))
is_enabled_iff disabled = ((λ e. cc), (λ d. elim (d refl) [ ]))

-- A configuration passes exactly if none of the ten budgets is 0, the heights fit and are in order, unfinalized
-- blocks come with history and not with ingest-only, and a batch fits the queue.
pub validate_iff :
    (parallelism : Option ℕ) (config : NodeConfig)
    → (validate parallelism config ≡ ok tt) ↔ IsValid parallelism config
unfolding validate
validate_iff parallelism config =
    let listed = budgets parallelism config in
    let positive = check_budgets_iff listed in
    let each = budgets_iff parallelism config in
    let low = exceeds_bigint_iff config.start_height in
    let high = exceeds_bigint_iff config.end_height in
    let range = check_range_iff config.start_height config.end_height in
    let kept = is_enabled_iff config.historical in
    (
      (λ e.
          let (u, p, e1) = >>=-eq-ok (check_budgets listed) _ e in
          let fits = not (exceeds_bigint config.start_height || exceeds_bigint config.end_height) in
          let (v, f, e2) = >>=-eq-ok (ensure fits heights_exceed_bigint) _ e1 in
          let finalized = not (config.ingest_only && config.unfinalized_blocks) in
          let (w, g, e3) = >>=-eq-ok (ensure finalized ingest_only_is_finalized) _ e2 in
          let (x, r, e4) = >>=-eq-ok (check_range config.start_height config.end_height) _ e3 in
          (
            each.0 (positive.0 p),
            low.0 (ground (arith, f)),
            high.0 (ground (arith, f)),
            range.0 r,
            (λ on. (ground (arith, g, on), kept.0 (ground (arith, e4, on)))),
            ground (arith, e4),
          )),
      (λ (p, s, t, r, u, q).
          rw (positive.1 (each.1 p), low.1 s, high.1 t, range.1 r)
            (elim (Bool-cases config.unfinalized_blocks) [
              | inl on ↦ rw (on, (u on).0, kept.1 (u on).1) (ground (arith, q))
              | inr off ↦ rw off (ground (arith, q))
            ])),
    )
