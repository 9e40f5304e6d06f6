-- ===== src/RecordLog/Wire.antt =====
-- One record on the wire: what is decoded is what was encoded.
use lion_fs.Base.{
  Bytes, ℕ, ◌+◌, ◌≤◌, ◌<◌, ◌≡◌, refl, ap, ◌∙◌, true, false, ◌||◌, not, some, ◌++◌, arith, ltb, ◌==◌,
  ==_of_ne, length, u64_mod, u32_mod, from_le_bytes-to_le_bytes, slice, to_le_bytes,
}
use lion_fs.RecordLog.{
  LogEntry, RecordType, tag, from_tag, create, write, delete, truncate, commit, checkpoint,
  DecodedHeader, header, encode_header, decode_header, read_fields, byte_at, bytes_equal, log_magic,
  log_version, header_bytes, stopped, torn,
}

-- The fields fit in their words.
pub record IsEncodable (e : LogEntry) : Type 0 where
  pub file_id_fits : e.file_id < u64_mod
  pub offset_fits : e.offset < u64_mod
  pub sequence_fits : e.sequence < u64_mod
  pub payload_fits : length e.payload < u32_mod

from_tag-tag : (k : RecordType) → from_tag (tag k) ≡ some k
unfolding from_tag tag
from_tag-tag create = refl
from_tag-tag write = refl
from_tag-tag delete = refl
from_tag-tag truncate = refl
from_tag-tag commit = refl
from_tag-tag checkpoint = refl

abbrev pub header_of : LogEntry → DecodedHeader
header_of e = record {
  kind = e.kind;
  file_id = e.file_id;
  offset = e.offset;
  sequence = e.sequence;
  payload_len = length e.payload;
  total = 40 + length e.payload + 4;
}

below : (m n : ℕ) → m < n → ltb m n ≡ true
below m n h = ground arith

not_below : (m n : ℕ) → n ≤ m → ltb m n ≡ false
not_below m n h = ground arith

pub length-encode_header :
    (e : LogEntry) (body : Bytes) → length (encode_header e ++ body) ≡ 40 + length body
unfolding encode_header
length-encode_header e body = omega arith

abbrev fields_of : RecordType → ℕ → ℕ → ℕ → ℕ → DecodedHeader
fields_of k f o s l = record {
  kind = k;
  file_id = f;
  offset = o;
  sequence = s;
  payload_len = l;
  total = 40 + l + 4;
}

fields_equal :
    (k : RecordType) (f o s l f' o' s' l' : ℕ)
    → f ≡ f'
    → o ≡ o'
    → s ≡ s'
    → l ≡ l'
    → fields_of k f o s l ≡ fields_of k f' o' s' l'
fields_equal k f o s l f' o' s' l' a b c d = rw (a, b, c, d) refl

read_fields-encode_header :
    (e : LogEntry) (body : Bytes)
    → IsEncodable e
    → read_fields (encode_header e ++ body) e.kind ≡ header_of e
unfolding read_fields encode_header to_le_bytes
read_fields-encode_header e body v =
    fields_equal e.kind _ _ _ _ e.file_id e.offset e.sequence (length e.payload)
      (from_le_bytes-to_le_bytes 8 e.file_id v.file_id_fits)
      (from_le_bytes-to_le_bytes 8 e.offset v.offset_fits)
      (from_le_bytes-to_le_bytes 8 e.sequence v.sequence_fits)
      (from_le_bytes-to_le_bytes 4 (length e.payload) v.payload_fits)

-- The tests that a whole record passes.
passes :
    (src : Bytes) (kind : RecordType)
    → (length src == 0) ≡ false
    → ltb (length src) header_bytes ≡ false
    → (not (bytes_equal (slice 0 4 src) log_magic) || not (byte_at 4 src == log_version)) ≡ false
    → from_tag (byte_at 5 src) ≡ some kind
    → ltb (length src) (read_fields src kind).total ≡ false
    → decode_header src ≡ header (read_fields src kind)
unfolding decode_header
passes src kind a b c d e = rw (decode_header, a, b, c, d, e) refl

-- A source that ends in the header, and one that ends in the record.
pub decode_header-short :
    (src : Bytes) → 0 < length src → length src < 40 → decode_header src ≡ stopped torn
unfolding decode_header
decode_header-short src pos short =
    rw (decode_header, ==_of_ne (length src) 0 (λ e. omega (arith, e)), below (length src) 40 short)
      refl

fails_late :
    (src : Bytes) (kind : RecordType)
    → (length src == 0) ≡ false
    → ltb (length src) header_bytes ≡ false
    → (not (bytes_equal (slice 0 4 src) log_magic) || not (byte_at 4 src == log_version)) ≡ false
    → from_tag (byte_at 5 src) ≡ some kind
    → ltb (length src) (read_fields src kind).total ≡ true
    → decode_header src ≡ stopped torn
unfolding decode_header
fails_late src kind a b c d e = rw (decode_header, a, b, c, d, e) refl

module _ (e : LogEntry) (body : Bytes) (v : IsEncodable e) where
  total_is : (read_fields (encode_header e ++ body) e.kind).total ≡ 44 + length e.payload
  total_is = ap (λ (h : DecodedHeader). h.total) (read_fields-encode_header e body v) ∙ omega arith

  frame_good :
      (not (bytes_equal (slice 0 4 (encode_header e ++ body)) log_magic)
        || not (byte_at 4 (encode_header e ++ body) == log_version))
      ≡ false
  unfolding encode_header
  frame_good = refl

  tag_good : from_tag (byte_at 5 (encode_header e ++ body)) ≡ some e.kind
  unfolding encode_header
  tag_good = from_tag-tag e.kind

  long_enough :
      ((length (encode_header e ++ body) == 0) ≡ false)
      × (ltb (length (encode_header e ++ body)) header_bytes ≡ false)
  long_enough =
      let size = length-encode_header e body in
      (==_of_ne _ 0 (λ z. omega (arith, size, z)), not_below _ 40 (omega (arith, size)))

  -- A header that at least its record follows decodes to its fields.
  pub decode_header-encode_header :
      length e.payload + 4 ≤ length body
      → decode_header (encode_header e ++ body) ≡ header (header_of e)
  decode_header-encode_header long =
      passes (encode_header e ++ body) e.kind long_enough.0 long_enough.1 frame_good tag_good
        (not_below _ _ (omega (arith, total_is, length-encode_header e body)))
      ∙ ap header (read_fields-encode_header e body v)

  -- A header that less than its record follows is torn.
  pub decode_header-torn :
      length body < length e.payload + 4 → decode_header (encode_header e ++ body) ≡ stopped torn
  decode_header-torn short =
      fails_late (encode_header e ++ body) e.kind long_enough.0 long_enough.1 frame_good tag_good
        (below _ _ (omega (arith, total_is, length-encode_header e body)))
