-- ===== src/Workload/Trace/Rows.antt =====
-- The rows of a trace as the dicts that `compile_trace` of workload/trace.py appends, and `trace_hash`.
use kavach_ai.Common.{String, Float, pos, List, [], ◌∷◌}
use kavach_ai.Py.{Value, str, int, float, list, dict, Items, nil, cons, Fields, end, field}
use kavach_ai.Workload.Trace.{Offset, Row}

-- the doubles and the text that Python computes
pub record Format : Type 0 where
  -- `elapsed + second + slot / stage["rps"]`
  pub offset : Offset → Float
  -- `json.dumps(rows, sort_keys=True, separators=(",", ":"))`
  pub dumps : Value → String
  -- `hashlib.sha256(...).hexdigest()`
  pub sha256_hex : String → String

module _ (f : Format) where
  unfoldable pub row_fields : Row → Fields
  row_fields row = field "sequence" (int (pos row.sequence)) (
      field "offset_s" (float (f.offset row.offset)) (
        field "endpoint" (str row.endpoint) (
          field "user" (int (pos row.user))
            (field "amount_minor" (int (pos row.amount_minor)) (field "label" row.label end)))))

  unfoldable pub row_items : List Row → Items
  unfolding row_fields
  row_items [] = nil
  row_items (row ∷ rows) = cons (dict (row_fields row)) (row_items rows)

  unfoldable pub trace_hash : List Row → String
  unfolding row_items
  trace_hash rows = f.sha256_hex (f.dumps (list (row_items rows)))
