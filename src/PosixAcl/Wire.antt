-- ===== src/PosixAcl/Wire.antt =====
-- Decoding what was encoded.
use lion_fs.Base.{
  ℕ, suc, ◌*◌, ◌/◌, ◌%◌, ◌<◌, ◌≡◌, refl, sym, ap, ◌∙◌, true, false, not, Option, none, some, List,
  [], ◌∷◌, ◌++◌, arith, ltb, ◌==◌, ==_of_ne, if◌then◌else◌, length, drop, Bytes, to_le_bytes,
  from_le_bytes, slice, from_le_bytes-to_le_bytes, All, Bool-cases, inl, inr,
}
use lion_fs.PosixAcl.{
  AclEntry, PosixAcl, is_valid_tag, is_named_tag, decode_entry, decode_entries, decode,
  encode_entries, encode, canonical_sort, insert_entry, before, or_zero,
}

-- The entry has a tag of the format, a permission word, and an id exactly if it is named.
pub record IsEntry (e : AclEntry) : Type 0 where
  pub tag_valid : is_valid_tag e.tag ≡ true
  pub tag_fits : e.tag < 65536
  pub perm_fits : e.perm < 65536
  pub id_given : is_named_tag e.tag ≡ true → (i : ℕ) × ((e.id ≡ some i) × (i < 4294967295))
  pub id_absent : is_named_tag e.tag ≡ false → e.id ≡ none

abbrev entry_bytes : AclEntry → Bytes → Bytes
entry_bytes e rest =
    to_le_bytes 2 e.tag ++ (to_le_bytes 2 e.perm ++ (to_le_bytes 4 (or_zero e.id) ++ rest))

abbrev entry_from : ℕ → ℕ → Option ℕ → AclEntry
entry_from t p i = record { tag = t; perm = p; id = i }

entry_is :
    (chunk : Bytes) (t p i : ℕ)
    → from_le_bytes (slice 0 2 chunk) ≡ t
    → from_le_bytes (slice 2 4 chunk) ≡ p
    → from_le_bytes (slice 4 8 chunk) ≡ i
    → decode_entry chunk ≡ (
        if not (is_valid_tag t)
        then none
        else if is_named_tag t
        then (if i == 4294967295 then none else some (entry_from t p (some i)))
        else some (entry_from t p none))
unfolding decode_entry
entry_is chunk t p i a b c = rw (decode_entry, a, b, c) refl

decode_entry-encode_entries :
    (e : AclEntry) (rest : Bytes)
    → IsEntry e
    → decode_entry (slice 0 8 (entry_bytes e rest)) ≡ some e
unfolding to_le_bytes
decode_entry-encode_entries e rest v = elim (Bool-cases (is_named_tag e.tag)) [
  | inl named ↦
      let given = v.id_given named in
      let i = given.0 in
      let fits = given.1.1 in
      let id_is : from_le_bytes (slice 4 8 (slice 0 8 (entry_bytes e rest))) ≡ i =
        from_le_bytes-to_le_bytes 4 (or_zero e.id) (rw (given.1.0) (omega arith))
        ∙ ap or_zero given.1.0 in
      entry_is (slice 0 8 (entry_bytes e rest)) e.tag e.perm i
        (from_le_bytes-to_le_bytes 2 e.tag v.tag_fits)
        (from_le_bytes-to_le_bytes 2 e.perm v.perm_fits) id_is
      ∙ rw (v.tag_valid, named, ==_of_ne i 4294967295 (λ z. omega (arith, z)))
          (ap (λ o. some (entry_from e.tag e.perm o)) (sym given.1.0))
  | inr class ↦
      let absent = v.id_absent class in
      let id_is : from_le_bytes (slice 4 8 (slice 0 8 (entry_bytes e rest))) ≡ 0 =
        from_le_bytes-to_le_bytes 4 (or_zero e.id) (rw (absent) (omega arith))
        ∙ ap or_zero absent in
      entry_is (slice 0 8 (entry_bytes e rest)) e.tag e.perm 0
        (from_le_bytes-to_le_bytes 2 e.tag v.tag_fits)
        (from_le_bytes-to_le_bytes 2 e.perm v.perm_fits) id_is
      ∙ rw (v.tag_valid, class) (ap (λ o. some (entry_from e.tag e.perm o)) (sym absent))
]

decode_step :
    (chunks : ℕ) (body : Bytes) (e : AclEntry) (es : List AclEntry)
    → decode_entry (slice 0 8 body) ≡ some e
    → decode_entries chunks (drop 8 body) ≡ some es
    → decode_entries (suc chunks) body ≡ some (e ∷ es)
unfolding decode_entries
decode_step chunks body e es one more = rw (decode_entries, one, more) refl

decode_entries-encode_entries :
    (es : List AclEntry) → All IsEntry es → decode_entries (length es) (encode_entries es) ≡ some es
unfolding decode_entries encode_entries to_le_bytes
decode_entries-encode_entries [] v = refl
decode_entries-encode_entries (e ∷ es) v =
    decode_step (length es) (entry_bytes e (encode_entries es)) e es
      (decode_entry-encode_entries e (encode_entries es) v.0) (decode_entries-encode_entries es v.1)

length-encode_entries : (es : List AclEntry) → length (encode_entries es) ≡ 8 * length es
unfolding encode_entries to_le_bytes
length-encode_entries [] = refl
length-encode_entries (e ∷ es) = omega (arith, length-encode_entries es)

insert_entry-All :
    (e : AclEntry) (es : List AclEntry)
    → IsEntry e
    → All IsEntry es
    → All IsEntry (insert_entry e es)
unfolding insert_entry
insert_entry-All e [] v vs = (v, tt)
insert_entry-All e (f ∷ fs) v vs = elim (Bool-cases (before f e)) [
  | inl first ↦ rw (insert_entry, first) ((vs.0, insert_entry-All e fs v vs.1))
  | inr later ↦ rw (insert_entry, later) ((v, vs))
]

length-insert_entry :
    (e : AclEntry) (es : List AclEntry) → length (insert_entry e es) ≡ suc (length es)
unfolding insert_entry
length-insert_entry e [] = refl
length-insert_entry e (f ∷ fs) = elim (Bool-cases (before f e)) [
  | inl first ↦ rw (insert_entry, first) (ap suc (length-insert_entry e fs))
  | inr later ↦ rw (insert_entry, later) refl
]

canonical_sort-All : (es : List AclEntry) → All IsEntry es → All IsEntry (canonical_sort es)
unfolding canonical_sort
canonical_sort-All [] vs = tt
canonical_sort-All (e ∷ es) vs =
    insert_entry-All e (canonical_sort es) vs.0 (canonical_sort-All es vs.1)

length-canonical_sort : (es : List AclEntry) → length (canonical_sort es) ≡ length es
unfolding canonical_sort
length-canonical_sort [] = refl
length-canonical_sort (e ∷ es) =
    length-insert_entry e (canonical_sort es) ∙ ap suc (length-canonical_sort es)

decode_parts :
    (body : Bytes) (es : List AclEntry)
    → (length body % 8 == 0) ≡ true
    → decode_entries (length body / 8) body ≡ some es
    → (length es == 0) ≡ false
    → decode (1 ∷ (0 ∷ (0 ∷ (0 ∷ body)))) ≡ some (record { entries = es })
unfolding decode
decode_parts body es whole entries kept =
    let long : ltb (length (1 ∷ (0 ∷ (0 ∷ (0 ∷ body))))) 4 ≡ false = ground arith in
    rw (decode, long, whole, entries, kept) refl

-- An access-control list that is not empty, whose entries have tags and words of the format, and an
-- id exactly where the tag is that of a named user or group: decoding its encoding gives the list
-- with its entries in canonical order.
pub decode-encode :
    (acl : PosixAcl)
    → 0 < length acl.entries
    → All IsEntry acl.entries
    → decode (encode acl) ≡ some (record { entries = canonical_sort acl.entries })
unfolding decode encode to_le_bytes
decode-encode acl pos v =
    let es = canonical_sort acl.entries in
    let body = encode_entries es in
    let size : length body ≡ 8 * length es = length-encode_entries es in
    let chunks : length body / 8 ≡ length es = omega (arith, size) in
    let whole : length body % 8 ≡ 0 = omega (arith, size) in
    let kept : 0 < length es = omega (arith, length-canonical_sort acl.entries) in
    let entries : decode_entries (length body / 8) body ≡ some es =
      ap (λ n. decode_entries n body) chunks
      ∙ decode_entries-encode_entries es (canonical_sort-All acl.entries v) in
    decode_parts body es (ap (λ n. n == 0) whole) entries
      (==_of_ne (length es) 0 (λ e. omega (arith, e)))
