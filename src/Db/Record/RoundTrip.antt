-- ===== src/Db/Record/RoundTrip.antt =====
-- The writer's Unmarshal finds in the text of makeRecord every field of the record.
use zaman.Base.{
  ℕ, ◌<◌, ◌^◌, ◌≡◌, refl, ap, ◌∙◌, true, none, some, [], length, ltb, lt→ltb, if◌then◌else◌, is_nil,
  is_nil_lem, Bool-cases, inl, inr, arith,
}
use zaman.Text.{Bytes, codes}
use zaman.Text.Base64.{encode}
use zaman.Text.Decimal.{ℤ, pos}
use zaman.Text.Json.{valid_utf8}
use zaman.Text.Json.Value.{text, number, object, Members, member, clean, clean_members}
use zaman.Text.Json.Value.Printed.{parse-print}
use zaman.Sip.{SipInfo, Kind, request, response, parse_sip}
use zaman.Sip.Redact.{redact_sip}
use zaman.Sip.Record.{Source, kind_name, record_method, make_record}
use zaman.Db.CallState.{CaptureRecord}
use zaman.Db.Record.{no_record, set_field, read_fields, read_record, unmarshal}
use zaman.Db.Record.Written.{text_if, positive_if, record_members, make_record-print}
use zaman.Text.Base64.RoundTrip.{valid_utf8-encode}
use zaman.Text.Decimal.{fits_int64}
use zaman.Sip.Message.Status.{parse_sip-fits_int64}

module _ (key : Bytes) (ms : Members) (r r' : CaptureRecord) where
  read_fields-text :
      (v : Bytes)
      → set_field (valid_utf8 0 key) (text (valid_utf8 0 v)) r ≡ some r'
      → read_fields (clean_members (member key (text v) ms)) r ≡ read_fields (clean_members ms) r'
  unfolding read_fields clean
  read_fields-text v e = rw e refl

  read_fields-number :
      (n : ℤ)
      → set_field (valid_utf8 0 key) (number n) r ≡ (if fits_int64 n then some r' else none)
      → fits_int64 n ≡ true
      → read_fields (clean_members (member key (number n) ms)) r ≡ read_fields (clean_members ms) r'
  unfolding read_fields clean
  read_fields-number n e range = rw (e, range) refl

  read_fields-text_if :
      (v : Bytes)
      → set_field (valid_utf8 0 key) (text (valid_utf8 0 v)) r ≡ some r'
      → (valid_utf8 0 v ≡ [] → r ≡ r')
      → read_fields (clean_members (text_if key v ms)) r ≡ read_fields (clean_members ms) r'
  read_fields-text_if v e same = elim (Bool-cases (is_nil v)) [
    | inl nothing ↦
        let empty : valid_utf8 0 v ≡ [] = rw (is_nil_lem v nothing) (unfold valid_utf8 in refl) in
        rw nothing (ap (read_fields (clean_members ms)) (same empty))
    | inr more ↦ rw more (read_fields-text v e)
  ]

  read_fields-positive_if :
      (n : ℕ)
      → set_field (valid_utf8 0 key) (number (pos n)) r
        ≡ (if fits_int64 (pos n) then some r' else none)
      → fits_int64 (pos n) ≡ true
      → (n ≡ 0 → r ≡ r')
      → read_fields (clean_members (positive_if key n ms)) r ≡ read_fields (clean_members ms) r'
  read_fields-positive_if n e range same = elim (Bool-cases (ltb 0 n)) [
    | inl more ↦ rw more (read_fields-number (pos n) e range)
    | inr nothing ↦
        rw nothing (ap (read_fields (clean_members ms)) (same (ground (arith, nothing))))
  ]

-- The record that the writer is to store for a message.
abbrev pub captured : Source → SipInfo → ℕ → Bytes → CaptureRecord
captured s info size raw64 = record {
  ts_ms = s.ts_ms;
  src = valid_utf8 0 s.src;
  dst = valid_utf8 0 s.dst;
  transport = valid_utf8 0 s.transport;
  proto = valid_utf8 0 s.proto;
  agent = valid_utf8 0 s.agent;
  kind = kind_name info.kind;
  method = valid_utf8 0 (record_method info);
  status = info.status;
  call_id = valid_utf8 0 info.call_id;
  from = valid_utf8 0 info.from;
  to = valid_utf8 0 info.to;
  cseq = valid_utf8 0 info.cseq;
  ruri = valid_utf8 0 info.ruri;
  hep_node_id = s.hep_node_id;
  hep_node = valid_utf8 0 s.hep_node_name;
  hep_cid = valid_utf8 0 s.hep_correlation;
  size = size;
  raw_b64 = raw64;
}

record InRange (s : Source) (info : SipInfo) (size : ℕ) : Type 0 where
  time : s.ts_ms < 2 ^ 63
  node : s.hep_node_id < 2 ^ 63
  bytes : size < 2 ^ 63
  status : fits_int64 info.status ≡ true

kind_name_clean : (k : Kind) → valid_utf8 0 (kind_name k) ≡ kind_name k
unfolding valid_utf8
kind_name_clean request = refl
kind_name_clean response = refl

read_fields-record_members :
    (s : Source) (info : SipInfo) (size : ℕ) (raw64 : Bytes)
    → InRange s info size
    → valid_utf8 0 raw64 ≡ raw64
    → read_fields (clean_members (record_members s info size raw64)) no_record
      ≡ some (captured s info size raw64)
unfolding record_members set_field valid_utf8
read_fields-record_members s info size raw64 h same =
    read_fields-number (codes "ts_ms") _ _ _ (pos s.ts_ms) refl (lt→ltb s.ts_ms (2 ^ 63) h.time)
    ∙ read_fields-text (codes "src") _ _ _ s.src refl
    ∙ read_fields-text (codes "dst") _ _ _ s.dst refl
    ∙ read_fields-text (codes "transport") _ _ _ s.transport refl
    ∙ read_fields-text (codes "proto") _ _ _ s.proto refl
    ∙ read_fields-text (codes "agent") _ _ _ s.agent refl
    ∙ read_fields-text (codes "kind") _ _ _ (kind_name info.kind) refl
    ∙ read_fields-text (codes "method") _ _ _ (record_method info) refl
    ∙ read_fields-number (codes "status") _ _ _ info.status refl h.status
    ∙ read_fields-text_if (codes "ruri") _ _ _ info.ruri refl (λ e. rw e refl)
    ∙ read_fields-text_if (codes "call_id") _ _ _ info.call_id refl (λ e. rw e refl)
    ∙ read_fields-text_if (codes "from") _ _ _ info.from refl (λ e. rw e refl)
    ∙ read_fields-text_if (codes "to") _ _ _ info.to refl (λ e. rw e refl)
    ∙ read_fields-text_if (codes "cseq") _ _ _ info.cseq refl (λ e. rw e refl)
    ∙ read_fields-positive_if (codes "hep_node_id") _ _ _ s.hep_node_id refl
        (lt→ltb s.hep_node_id (2 ^ 63) h.node) (λ e. rw e refl)
    ∙ read_fields-text_if (codes "hep_node") _ _ _ s.hep_node_name refl (λ e. rw e refl)
    ∙ read_fields-text_if (codes "hep_cid") _ _ _ s.hep_correlation refl (λ e. rw e refl)
    ∙ read_fields-number (codes "size") _ _ _ (pos size) refl (lt→ltb size (2 ^ 63) h.bytes)
    ∙ read_fields-text (codes "raw_b64") _ _ _ raw64 refl
    ∙ unfold read_fields clean in rw (kind_name_clean info.kind, same) refl

-- The text that makeRecord puts into the queue is read by the writer as the record of the message:
-- every field that was given, an absent one as empty, and texts that are no UTF-8 with the replacement
-- character. The time, the node's number and the length of the message fit an int64.
pub unmarshal-make_record :
    (s : Source) (msg : Bytes)
    → s.ts_ms < 2 ^ 63
    → s.hep_node_id < 2 ^ 63
    → length msg < 2 ^ 63
    → unmarshal (make_record s msg)
      ≡ some (captured s (parse_sip msg) (length msg) (encode (redact_sip msg)))
unfolding unmarshal
unmarshal-make_record s msg time node bytes =
    let info = parse_sip msg in
    let raw64 = encode (redact_sip msg) in
    let range : InRange s info (length msg) = record {
      time = time;
      node = node;
      bytes = bytes;
      status = parse_sip-fits_int64 msg;
    } in
    rw (make_record-print s msg, parse-print (object (record_members s info (length msg) raw64)))
      (unfold read_record clean in
        read_fields-record_members s info (length msg) raw64 range
          (valid_utf8-encode (redact_sip msg)))
