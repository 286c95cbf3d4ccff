-- ===== src/Examples/Manifests.antt =====
-- A manifest with one data source and two handlers.
use superquery_node.Evm.Project.Prepare.{
  DataSource, log_filter, prepare_handlers, Parsers, prepare_source, block_filter, check_options,
  address_option, option_of, address, prepare_one, input_filter, log_topics, block_of,
}
use superquery_node.Common.{ascii, refl, none, some, List, [], ◌∷◌}
use superquery_node.Evm.Project.{PreparedHandler, log_input, block_input}
use superquery_node.Evm.Filter.{one}
use superquery_node.Evm.Project.Prepare.Asked.{ArePrepared}
use superquery_node.Evm.Project.Prepare.Kept.{prepare_handlers-ArePrepared}

abbrev parsers : Parsers
parsers = record {
  parse_address = λ s. some s;
  parse_hash = λ s. some s;
  event_selector = λ s. some (ascii "0x1");
  function_selector = λ s. some (ascii "0x2");
}

abbrev source : DataSource
source = record {
  options = ("address", some (ascii "0xa")) ∷ [];
  handlers =
      record {
        handler = "on_transfer";
        kind = "evm/LogHandler";
        filter = some (log_filter (ascii "Transfer()") []);
      }
      ∷ record {
        handler = "on_block";
        kind = "evm/BlockHandler";
        filter = some (block_filter (some 10) none);
      }
      ∷ [];
  effective_start_block = 5;
  end_block = none;
}

abbrev prepared : List PreparedHandler
prepared =
    record {
      function = "on_transfer";
      start = 5;
      end = none;
      filter = log_input (record { address = some (ascii "0xa"); topics = one (ascii "0x1") ∷ [] });
    }
    ∷ record { function = "on_block"; start = 5; end = none; filter = block_input (some 10) }
    ∷ []

prepare_handlers-ArePrepared_example : ArePrepared parsers (source ∷ []) prepared
unfolding prepare_handlers prepare_source check_options address_option option_of address prepare_one
    input_filter log_topics block_of
prepare_handlers-ArePrepared_example =
    prepare_handlers-ArePrepared parsers (source ∷ []) prepared refl
