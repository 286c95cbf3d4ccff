-- ===== src/Node/Startup/Checks.antt =====
-- What a run of bins/superquery-node/src/startup.rs has checked once it starts.
use superquery_node.Config.Node.Checks.{InOrder}
use superquery_node.Common.{i64_max, All, ok, ◌≤◌, ◌≡◌, ◌≢◌, true, some, []}
use superquery_node.Node.Startup.{Outside, LocalContext, start_of, endpoints_of}
use superquery_node.Config.Node.{NodeConfig}
use superquery_node.Config.Url.{Url}
use superquery_node.Config.Endpoint.{IsEndpoint}

module _ {Project Handlers : Type 0} (outside : Outside Project Handlers)
    (config : NodeConfig) where
  abbrev pub IsChecked : LocalContext outside → Type 0
  IsChecked local =
      (local.path ≡ config.project)
      × (outside.exists local.path ≡ true)
      × (outside.is_dir local.path ≡ true)
      × (outside.load local.path ≡ ok local.project)
      × (outside.parse_entities local.project ≡ ok tt)
      × (outside.prepare_handlers local.project ≡ ok local.handlers)
      × (local.endpoints ≡ endpoints_of outside config local.project)
      × (local.endpoints ≢ [])
      × All (IsEndpoint outside.parse_url) local.endpoints
      × (start_of outside config local.project ≤ i64_max)
      × InOrder (some (start_of outside config local.project)) config.end_height
