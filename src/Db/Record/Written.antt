-- ===== src/Db/Record/Written.antt =====
-- makeRecord of core-go/sip.go writes one JSON object.
use zaman.Base.{
  ℕ, ◌≡◌, refl, List, [], ◌∷◌, ◌++◌, append_assoc, length, ltb, if◌then◌else◌, is_nil, Bool-cases,
  inl, inr,
}
use zaman.Text.{Bytes, codes}
use zaman.Text.Base64.{encode}
use zaman.Text.Base64.RoundTrip.{jesc-encode}
use zaman.Text.Decimal.{ℤ, pos, show_ℤ}
use zaman.Text.Json.{jesc}
use zaman.Text.Json.Value.{text, number, object, Members, end, member, print, more_members}
use zaman.Sip.{SipInfo, Kind, request, response, parse_sip}
use zaman.Sip.Redact.{redact_sip}
use zaman.Sip.Record.{
  Source, kind_name, record_method, text_field, plain_field, number_field, text_field_if, written,
  record_fields, make_record,
}

-- A member that is left out where its value is empty.
abbrev pub text_if : Bytes → Bytes → Members → Members
text_if key v ms = if is_nil v then ms else member key (text v) ms

abbrev pub positive_if : Bytes → ℕ → Members → Members
positive_if key n ms = if ltb 0 n then member key (number (pos n)) ms else ms

unfoldable pub record_members : Source → SipInfo → ℕ → Bytes → Members
record_members s info size raw64 = member (codes "ts_ms") (number (pos s.ts_ms)) (
    member (codes "src") (text s.src) (
      member (codes "dst") (text s.dst) (
        member (codes "transport") (text s.transport) (
          member (codes "proto") (text s.proto) (
            member (codes "agent") (text s.agent) (
              member (codes "kind") (text (kind_name info.kind)) (
                member (codes "method") (text (record_method info)) (
                  member (codes "status") (number info.status) (
                    text_if (codes "ruri") info.ruri (
                      text_if (codes "call_id") info.call_id (
                        text_if (codes "from") info.from (
                          text_if (codes "to") info.to (
                            text_if (codes "cseq") info.cseq (
                              positive_if (codes "hep_node_id") s.hep_node_id (
                                text_if (codes "hep_node") s.hep_node_name (
                                  text_if (codes "hep_cid") s.hep_correlation (
                                    member (codes "size") (number (pos size))
                                      (member (codes "raw_b64") (text raw64) end))))))))))))))))))

module _ (key : Bytes) (plain_key : jesc key ≡ key) (fields : List Bytes) (ms : Members)
    (same : written fields ≡ more_members ms) where
  written-text :
      (v : Bytes) → written (text_field key v ∷ fields) ≡ more_members (member key (text v) ms)
  unfolding written text_field more_members
  written-text v = simp (plain_key, same, append_assoc)

  written-number :
      (n : ℤ) → written (number_field key n ∷ fields) ≡ more_members (member key (number n) ms)
  unfolding written number_field more_members
  written-number n = simp (plain_key, same, append_assoc)

  written-plain :
      (v : Bytes)
      → jesc v ≡ v
      → written (plain_field key v ∷ fields) ≡ more_members (member key (text v) ms)
  unfolding written plain_field more_members
  written-plain v e = simp (plain_key, same, append_assoc, e)

  written-text_if :
      (v : Bytes) → written (text_field_if key v ∷ fields) ≡ more_members (text_if key v ms)
  unfolding text_field_if
  written-text_if v = elim (Bool-cases (is_nil v)) [
    | inl e ↦ rw e (unfold written in same)
    | inr e ↦ rw e (written-text v)
  ]

  written-positive_if :
      (n : ℕ)
      → written ((if ltb 0 n then number_field key (pos n) else []) ∷ fields)
        ≡ more_members (positive_if key n ms)
  written-positive_if n = elim (Bool-cases (ltb 0 n)) [
    | inl e ↦ rw e (written-number (pos n))
    | inr e ↦ rw e (unfold written in same)
  ]

first_field :
    (n : ℕ) (fields : List Bytes) (ms : Members)
    → written fields ≡ more_members ms
    → written ((codes "{\"ts_ms\":" ++ show_ℤ (pos n)) ∷ fields)
      ≡ print (object (member (codes "ts_ms") (number (pos n)) ms))
unfolding written print
first_field n fields ms same =
    let plain_key : jesc (codes "ts_ms") ≡ codes "ts_ms" = unfold jesc in refl in
    simp (plain_key, same)

pub kind_name-plain : (k : Kind) → jesc (kind_name k) ≡ kind_name k
unfolding jesc
kind_name-plain request = refl
kind_name-plain response = refl

written_end : written (codes "}" ∷ []) ≡ more_members end
unfolding written more_members
written_end = refl

fields_text :
    (s : Source) (info : SipInfo) (size : ℕ) (raw64 : Bytes)
    → jesc raw64 ≡ raw64
    → written (record_fields s info size raw64) ≡ print (object (record_members s info size raw64))
unfolding record_fields record_members
fields_text s info size raw64 e = first_field s.ts_ms _ _ (
    written-text (codes "src") (unfold jesc in refl) _ _
      (written-text (codes "dst") (unfold jesc in refl) _ _
        (written-text (codes "transport") (unfold jesc in refl) _ _
          (written-text (codes "proto") (unfold jesc in refl) _ _
            (written-text (codes "agent") (unfold jesc in refl) _ _
              (written-plain (codes "kind") (unfold jesc in refl) _ _
                (written-text (codes "method") (unfold jesc in refl) _ _
                  (written-number (codes "status") (unfold jesc in refl) _ _
                    (written-text_if (codes "ruri") (unfold jesc in refl) _ _
                      (written-text_if (codes "call_id") (unfold jesc in refl) _ _
                        (written-text_if (codes "from") (unfold jesc in refl) _ _
                          (written-text_if (codes "to") (unfold jesc in refl) _ _
                            (written-text_if (codes "cseq") (unfold jesc in refl) _ _
                              (written-positive_if (codes "hep_node_id") (unfold jesc in refl) _ _
                                (written-text_if (codes "hep_node") (unfold jesc in refl) _ _
                                  (written-text_if (codes "hep_cid") (unfold jesc in refl) _ _
                                    (written-number (codes "size") (unfold jesc in refl) _ _
                                      (written-plain (codes "raw_b64") (unfold jesc in refl) _ _
                                        written_end raw64 e)
                                      (pos size))
                                    s.hep_correlation)
                                  s.hep_node_name)
                                s.hep_node_id)
                              info.cseq)
                            info.to)
                          info.from)
                        info.call_id)
                      info.ruri)
                    info.status)
                  (record_method info))
                (kind_name info.kind) (kind_name-plain info.kind))
              s.agent)
            s.proto)
          s.transport)
        s.dst)
      s.src)

pub make_record-print :
    (s : Source) (msg : Bytes)
    → make_record s msg
      ≡ print (object (record_members s (parse_sip msg) (length msg) (encode (redact_sip msg))))
unfolding make_record
make_record-print s msg =
    fields_text s (parse_sip msg) (length msg) (encode (redact_sip msg))
      (jesc-encode (redact_sip msg))
