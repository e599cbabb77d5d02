-- ===== src/Api/Export/Lines.antt =====
-- The lines of the export are read back as the fields of the messages.
use zaman.Base.{
  ℕ, zero, suc, ◌/◌, ◌≡◌, refl, sym, ap, ◌∙◌, false, Option, none, some, List, [], ◌∷◌, ◌++◌, map,
  All,
}
use zaman.Text.{Bytes, codes, equal}
use zaman.Text.Json.{valid_utf8}
use zaman.Text.Json.Value.{items, print, clean, clean_items}
use zaman.Text.Json.Value.Printed.{parse-print}
use zaman.Db.Batch.{Capture}
use zaman.Reports.{needs_quotes, csv_field}
use zaman.Reports.Quoted.{read_field, read_field-csv_field}
use zaman.Reports.Messages.{message_json, messages_json}
use zaman.Api.Export.{
  csv_line, csv_lines, csv_head, export_csv, lookup, value_text, time_text, float_text,
}
use zaman.Api.Export.Floats.{float_text-plain}

abbrev behind : Bytes → Option (List Bytes × Bytes) → Option (List Bytes × Bytes)
behind value none = none
behind value (some (values, rest)) = some (value ∷ values, rest)

abbrev read_behind :
    (Bytes → Option (List Bytes × Bytes)) → Option (Bytes × Bytes) → Option (List Bytes × Bytes)
read_behind more none = none
read_behind more (some (value, rest)) = behind value (more rest)

-- The first `n` fields of a row, each up to its comma, and what is left.
unfoldable pub read_row : ℕ → Bytes → Option (List Bytes × Bytes)
unfolding read_field
read_row zero s = some ([], s)
read_row (suc n) s = read_behind (read_row n) (read_field s)

read_row-suc :
    (n : ℕ) (value rest : Bytes)
    → read_row (suc n) (csv_field value ++ b',' ∷ rest) ≡ behind value (read_row n rest)
unfolding read_row
read_row-suc n value rest = ap (read_behind (read_row n)) (read_field-csv_field value rest)

csv_field-plain : (s : Bytes) → needs_quotes s ≡ false → csv_field s ≡ s
unfolding csv_field
csv_field-plain s h = rw h refl

-- The line of a message, its texts as JSON carries them: what is no UTF-8 is replaced.
abbrev pub line_text : (ℕ → Bytes) → Capture → Bytes
unfolding csv_field
line_text format c =
    let field : Bytes → Bytes = λ s. csv_field (valid_utf8 0 s) in
    format (c.fields.ts_ms / 1000)
    ++ b','
      ∷ (field c.fields.method
          ++ b','
            ∷ (float_text c.fields.status
                ++ b','
                  ∷ (field c.fields.call_id
                      ++ b','
                        ∷ (field c.fields.src
                            ++ b','
                              ∷ (field c.fields.dst
                                  ++ b','
                                    ∷ (field c.fields.agent
                                        ++ b',' ∷ (field c.fields.transport ++ codes "\n")))))))

pub lines_text : (ℕ → Bytes) → List Capture → Bytes
lines_text format [] = []
lines_text format (c ∷ rows) = line_text format c ++ lines_text format rows

csv_lines-messages :
    (format : ℕ → Bytes) (rows : List Capture)
    → csv_lines format (clean_items (items (map message_json rows))) ≡ lines_text format rows
unfolding csv_lines csv_line lookup value_text time_text clean_items message_json equal valid_utf8
    lines_text
csv_lines-messages format [] = refl
csv_lines-messages format (c ∷ rows) =
    ap (λ rest. line_text format c ++ rest) (csv_lines-messages format rows)

-- The first seven fields of a message's line.
abbrev pub values_of : (ℕ → Bytes) → Capture → List Bytes
values_of format c =
    format (c.fields.ts_ms / 1000)
    ∷ valid_utf8 0 c.fields.method
    ∷ float_text c.fields.status
    ∷ valid_utf8 0 c.fields.call_id
    ∷ valid_utf8 0 c.fields.src
    ∷ valid_utf8 0 c.fields.dst
    ∷ valid_utf8 0 c.fields.agent
    ∷ []

-- A reader of the line finds these fields, and then the last one.
abbrev pub IsRead : (ℕ → Bytes) → Capture → Type 0
unfolding csv_field
IsRead format c =
    read_row 7 (line_text format c)
    ≡ some (values_of format c, csv_field (valid_utf8 0 c.fields.transport) ++ codes "\n")

read_row-plain :
    (n : ℕ) (value rest : Bytes)
    → needs_quotes value ≡ false
    → read_row (suc n) (value ++ b',' ∷ rest) ≡ behind value (read_row n rest)
read_row-plain n value rest h =
    ap (λ s. read_row (suc n) (s ++ b',' ∷ rest)) (sym (csv_field-plain value h))
    ∙ read_row-suc n value rest

line_text-IsRead :
    (format : ℕ → Bytes) (c : Capture)
    → needs_quotes (format (c.fields.ts_ms / 1000)) ≡ false
    → IsRead format c
unfolding IsRead read_row
line_text-IsRead format c h =
    read_row-plain 6 (format (c.fields.ts_ms / 1000)) _ h
    ∙ ap (behind _) (
        read_row-suc 5 (valid_utf8 0 c.fields.method) _
        ∙ ap (behind _) (
            read_row-plain 4 (float_text c.fields.status) _ (float_text-plain c.fields.status)
            ∙ ap (behind _) (
                read_row-suc 3 (valid_utf8 0 c.fields.call_id) _
                ∙ ap (behind _) (
                    read_row-suc 2 (valid_utf8 0 c.fields.src) _
                    ∙ ap (behind _) (
                        read_row-suc 1 (valid_utf8 0 c.fields.dst) _
                        ∙ ap (behind _) (read_row-suc 0 (valid_utf8 0 c.fields.agent) _))))))

lines-IsRead :
    (format : ℕ → Bytes) (rows : List Capture)
    → ((seconds : ℕ) → needs_quotes (format seconds) ≡ false)
    → All (IsRead format) rows
lines-IsRead format [] h = tt
lines-IsRead format (c ∷ rows) h =
    (line_text-IsRead format c (h (c.fields.ts_ms / 1000)), lines-IsRead format rows h)

-- The exported text is the head and a line for each message, in order, and a reader of CSV finds the
-- fields of the message in its line, whatever commas, quotes and ends of lines their texts have. The
-- format of a time has none of these.
pub export_csv-lines :
    (format : ℕ → Bytes) (rows : List Capture)
    → ((seconds : ℕ) → needs_quotes (format seconds) ≡ false)
    → (export_csv format (print (messages_json (some rows))) ≡ csv_head ++ lines_text format rows)
      × All (IsRead format) rows
unfolding export_csv messages_json clean
export_csv-lines format rows h = (
  rw (parse-print (messages_json (some rows)))
      (ap (◌++◌ csv_head) (csv_lines-messages format rows)),
  lines-IsRead format rows h,
)
