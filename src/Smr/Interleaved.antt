-- ===== src/Smr/Interleaved.antt =====
-- Two calls of plan_sequential whose steps alternate.
use lion_fs.Base.{
  ◌≢◌, ==_of_ne, ℕ, ◌+◌, ◌≤◌, ◌<◌, ◌≡◌, refl, ap, ◌∙◌, ◌++◌, Option, true, false, ◌&&◌, none, some,
  List, [], ◌∷◌, arith, ◌==◌, u64_mod, ltb, leb, ◌-◌, add_u64, ==_self,
}
use lion_fs.Smr.{
  Band, BandAllocator, Phase, start, collected, chosen, written, returned, plan_sequential, band,
  try_write_band, candidate, fits, modify, assign, assigned_to, is_writable, free_bytes,
}

-- Whose step comes next.
pub data Turn : Type 0 where
  first second : Turn

-- The allocator they share, and where each stands.
pub record System : Type 0 where
  pub shared : BandAllocator
  pub first_phase : Phase
  pub second_phase : Phase

-- The calls of the files `f` and `g` with the lengths `m` and `n`, in the order of the turns.
unfoldable pub play : ℕ → ℕ → ℕ → ℕ → List Turn → System → System
unfolding plan_sequential
play f m g n [] s = s
play f m g n (first ∷ turns) s =
    let (a, p) = plan_sequential f m s.shared s.first_phase in
    play f m g n turns (record s { shared = a; first_phase = p })
play f m g n (second ∷ turns) s =
    let (a, p) = plan_sequential g n s.shared s.second_phase in
    play f m g n turns (record s { shared = a; second_phase = p })

turn_first :
    (f m g n : ℕ) (turns : List Turn) (a b : BandAllocator) (p q r : Phase)
    → plan_sequential f m a p ≡ (b, q)
    → play f m g n (first ∷ turns) (record { shared = a; first_phase = p; second_phase = r })
      ≡ play f m g n turns (record { shared = b; first_phase = q; second_phase = r })
unfolding play
turn_first f m g n turns a b p q r e =
    ap
      (λ (o : BandAllocator × Phase).
        play f m g n turns (record { shared = o.0; first_phase = o.1; second_phase = r }))
      e

turn_second :
    (f m g n : ℕ) (turns : List Turn) (a b : BandAllocator) (p q r : Phase)
    → plan_sequential g n a p ≡ (b, q)
    → play f m g n (second ∷ turns) (record { shared = a; first_phase = r; second_phase = p })
      ≡ play f m g n turns (record { shared = b; first_phase = r; second_phase = q })
unfolding play
turn_second f m g n turns a b p q r e =
    ap
      (λ (o : BandAllocator × Phase).
        play f m g n turns (record { shared = o.0; first_phase = r; second_phase = o.1 }))
      e

-- Both collect the assigned bands before either writes to the table.
abbrev pub placing : List Turn
placing = first ∷ second ∷ first ∷ second ∷ first ∷ second ∷ []

abbrev pub racing : List Turn
racing = first ∷ first ∷ second ∷ second ∷ placing

abbrev pub one_band : ℕ → ℕ → ℕ → ℕ → List (ℕ × ℕ) → BandAllocator
one_band id base size used qs = record {
  bands =
      record { id = id; start = base; capacity = size; write_pointer = used; reclaiming = false }
      ∷ [];
  assignment = qs;
}

fits_one :
    (size used len : ℕ)
    → 0 < len
    → used + len ≤ size
    → (ltb 0 (size - used) && leb len (size - used)) ≡ true
fits_one size used len pos room = ground arith

candidate_one :
    (id base size used len : ℕ)
    → 0 < len
    → used + len ≤ size
    → candidate [] (one_band id base size used []).bands len ≡ some id
unfolding candidate fits is_writable free_bytes
candidate_one id base size used len pos room = ground arith

write_one :
    (id base size used len : ℕ)
    → 0 < len
    → used + len ≤ size
    → base + size < u64_mod
    → try_write_band (one_band id base size used []).bands id len
      ≡ ((one_band id base size (used + len) []).bands, some (id, base + used))
unfolding try_write_band band modify fits is_writable free_bytes add_u64
write_one id base size used len pos room bound = ground (arith, ==_self id)

choose_step :
    (file id base size used len : ℕ)
    → 0 < len
    → used + len ≤ size
    → plan_sequential file len (one_band id base size used []) (collected [])
      ≡ (one_band id base size used [], chosen id)
unfolding plan_sequential
choose_step file id base size used len pos room =
    ap (λ o. (one_band id base size used [], elim o [ none ↦ returned none | some i ↦ chosen i ]))
      (candidate_one id base size used len pos room)

write_step :
    (file id base size used len : ℕ) (qs : List (ℕ × ℕ))
    → 0 < len
    → used + len ≤ size
    → base + size < u64_mod
    → plan_sequential file len (one_band id base size used qs) (chosen id)
      ≡ (one_band id base size (used + len) qs, written id (id, base + used))
unfolding plan_sequential
write_step file id base size used len qs pos room bound =
    ap
      (λ (w : List Band × Option (ℕ × ℕ)). (
        record { bands = w.0; assignment = qs },
        elim w.1 [ none ↦ returned none | some place ↦ written id place ],
      ))
      (write_one id base size used len pos room bound)

assign_step :
    (f g len id base size used : ℕ) (place : ℕ × ℕ)
    → (f == g) ≡ false
    → plan_sequential g len (one_band id base size used ((f, id) ∷ [])) (written id place)
      ≡ (one_band id base size used ((f, id) ∷ (g, id) ∷ []), returned (some place))
unfolding plan_sequential assign
assign_step f g len id base size used place ne = rw (ne) refl

-- Each of two new files collects the assigned bands of the empty table.
collect :
    (f m g n id base size used : ℕ)
    → play f m g n racing (record {
      shared = one_band id base size used [];
      first_phase = start;
      second_phase = start;
    })
      ≡ play f m g n placing (record {
        shared = one_band id base size used [];
        first_phase = collected [];
        second_phase = collected [];
      })
unfolding play plan_sequential assigned_to
collect f m g n id base size used = refl

-- Two calls for different files of at least a byte each, on an allocator without assignments whose
-- one band has room for both and ends below 2^64: if both collect the assigned bands before either
-- writes the table, in the turns of `racing`, both return a place in that band, and it is assigned
-- to both files.
pub interleaved_calls_share :
    (f m g n id base size used : ℕ)
    → f ≢ g
    → 0 < m
    → 0 < n
    → used + m + n ≤ size
    → base + size < u64_mod
    → play f m g n racing (record {
      shared = one_band id base size used [];
      first_phase = start;
      second_phase = start;
    })
      ≡ record {
        shared = one_band id base size (used + m + n) ((f, id) ∷ (g, id) ∷ []);
        first_phase = returned (some (id, base + used));
        second_phase = returned (some (id, base + (used + m)));
      }
unfolding plan_sequential play
interleaved_calls_share f m g n id base size used ne hm hn room bound =
    let free = one_band id base size used [] in
    let half = one_band id base size (used + m) [] in
    let full = one_band id base size (used + m + n) [] in
    let place : ℕ × ℕ = (id, base + used) in
    let next : ℕ × ℕ = (id, base + (used + m)) in
    let turn : List Turn = first ∷ second ∷ [] in
    collect f m g n id base size used
    ∙ turn_first f m g n (second ∷ turn ++ turn) free free (collected []) (chosen id) (collected [])
        (choose_step f id base size used m hm (omega arith))
    ∙ turn_second f m g n (turn ++ turn) free free (collected []) (chosen id) (chosen id)
        (choose_step g id base size used n hn (omega arith))
    ∙ turn_first f m g n (second ∷ turn) free half (chosen id) (written id place) (chosen id)
        (write_step f id base size used m [] hm (omega arith) bound)
    ∙ turn_second f m g n turn half full (chosen id) (written id next) (written id place)
        (write_step g id base size (used + m) n [] hn (omega arith) bound)
    ∙ turn_first f m g n (second ∷ []) full (one_band id base size (used + m + n) ((f, id) ∷ []))
        (written id place) (returned (some place)) (written id next) refl
    ∙ turn_second f m g n [] (one_band id base size (used + m + n) ((f, id) ∷ []))
        (one_band id base size (used + m + n) ((f, id) ∷ (g, id) ∷ [])) (written id next)
        (returned (some next)) (returned (some place))
        (assign_step f g n id base size (used + m + n) next (==_of_ne f g ne))
