-- ===== src/Queue/Payload.antt =====
-- What is stored of a selection manifest of lib/intelligence/research_queue.py.
use stocks_agent.Common.{List, [], ◌∷◌, String}
use stocks_agent.Policy.Value.{
  Value, text, sequence, mapping, Values, end, item, Fields, no_field, field, set_field,
}
use stocks_agent.Queue.Manifest.{
  BoundRequest, SelectionManifest, persistence_document, descriptor_hash, manifest_document,
}

module _ (digest : Value → String) where
  unfoldable pub persistence_row : BoundRequest → Fields
  persistence_row row =
      set_field "descriptor_hash" (text (descriptor_hash digest row)) (persistence_document row)

  abbrev persistence_rows : List BoundRequest → Values
  persistence_rows [] = end
  persistence_rows (row ∷ rows) = item (mapping (persistence_row row)) (persistence_rows rows)

  unfoldable pub persistence_payload : SelectionManifest → Fields
  persistence_payload m =
      field "manifest"
        (mapping (
          field "manifest_id" (text m.manifest_id) (
            set_field "semantic_hash" (text m.semantic_hash) (
              manifest_document digest m.run_id m.phase m.requests m.deferred_reasons
                m.provider_reservations m.selection_stage))))
        (field "requests" (sequence (persistence_rows m.requests)) no_field)
