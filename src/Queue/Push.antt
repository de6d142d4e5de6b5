-- ===== src/Queue/Push.antt =====
-- Memory_Profiler_Queue_push: when it succeeds, and what it adds.
use native.Mathlib.Nat.{le-div_iff_mul-le, mul-le-mul_right}
use memory_tracker.Base.{
  ℕ, ◌+◌, ◌*◌, ◌/◌, ◌≤◌, ◌<◌, ◌≡◌, refl, sym, ap, ◌∙◌, ◌≢◌, ◌⊎◌, inl, inr, Bool, true, arith,
  Option, none, some, if◌then◌else◌, ◌==◌, inc, inc_lem, List, [], ◌∷◌, ◌++◌, dec_lt, take,
  length-set, dec_le, lt→ltb, ge→ltb, le→leb, gt→leb,
}
use memory_tracker.Queue.{
  Queue, grown, size_max, Outcome, failed, unchanged, resized, resize, default_count, finish, push,
  write, clear, take_slot,
}
use memory_tracker.Queue.Contents.{
  contents, IsValid, Resizes, room, resize-Resizes, unchanged-Resizes, take-set_next,
}
use memory_tracker.Queue.Doubling.{grow-grown}

-- Twice what fits into half the space fits into all of it.
twice : (n r d : ℕ) → 0 < d → n < r * 2 → r ≤ size_max / (2 * d) → n ≤ size_max / d
twice n r d z p q =
    let two : 0 < 2 * d = omega arith in
    let whole : r * (2 * d) ≤ size_max = (le-div_iff_mul-le two).0 q in
    let less : n * d ≤ r * 2 * d = mul-le-mul_right d (omega arith) in
    (le-div_iff_mul-le z).1 (omega arith)

module _ {ℓ} {A : Type ℓ} where
  module _ {q : Queue A} (v : IsValid q) where
    -- What a push does: one more cell in use, at the end.
    pub record Pushes (r : Queue A) : Type ℓ where
      pub valid : IsValid r
      pub count : r.count ≡ q.count + 1
      pub kept : take q.count r.base ≡ contents q
      pub same_size : r.element_size ≡ q.element_size

    take_slot-Pushes :
        (o : Outcome) (r : Queue A)
        → o ≢ failed
        → Resizes v (q.count + 1) o r
        → Pushes (record r { count = inc r.count })
    unfolding contents
    take_slot-Pushes o r ok s =
        let up = inc_lem r.count (omega (arith, s.same_count, room v)) in
        record {
          valid = record {
            width = s.valid.width;
            within = omega (arith, up, s.larger ok, s.same_count);
            bytes = s.valid.bytes;
            sized = s.valid.sized;
            size_fits = s.valid.size_fits;
          };
          count = omega (arith, up, s.same_count);
          kept = ap (λ (n : ℕ). take n r.base) (sym s.same_count) ∙ s.kept;
          same_size = s.same_size;
        }

    take_slot-cases :
        (o : Outcome) (r : Queue A)
        → Resizes v (q.count + 1) o r
        → ((take_slot (o, r) ≡ none) × (o ≡ failed))
          ⊎ ((p : Queue A) × (take_slot (o, r) ≡ some (q.count, p)) × Pushes p)
    unfolding take_slot
    take_slot-cases failed r s = inl (refl, refl)
    take_slot-cases unchanged r s =
        inr (_, rw s.same_count, take_slot-Pushes unchanged r (λ e. cc) s)
    take_slot-cases resized r s = inr (_, rw s.same_count, take_slot-Pushes resized r (λ e. cc) s)

    -- A push fails only where resize does; otherwise it gives the cell after the last element.
    pub push-cases :
        (fits : Bool)
        → ((push fits q ≡ none) × ((resize fits q (q.count + 1)).0 ≡ failed))
          ⊎ ((p : Queue A) × (push fits q ≡ some (q.count, p)) × Pushes p)
    unfolding push
    push-cases fits =
        let up = inc_lem q.count (room v) in
        elim (dec_lt q.capacity (q.count + 1)) [
          | yes full ↦
              rw (up, lt→ltb q.capacity (q.count + 1) full)
                (take_slot-cases _ _ (resize-Resizes v fits (q.count + 1)))
          | no more ↦
              rw (up, ge→ltb q.capacity (q.count + 1) (omega arith))
                (inr (
                  _,
                  refl,
                  take_slot-Pushes unchanged q (λ e. cc)
                      (unchanged-Resizes v (q.count + 1) (omega arith)),
                ))
        ]

    -- When a push has given a cell of a valid queue and the element is written to it, the queue is
    -- valid and holds the same elements with that one at the end.
    pub write-contents :
        {p : Queue A}
        → Pushes p
        → (x : A)
        → IsValid (write p q.count x) × (contents (write p q.count x) ≡ contents q ++ some x ∷ [])
    unfolding write contents
    write-contents {p} s x = (
      record {
        width = length-set p.base q.count (some x) ∙ s.valid.width;
        within = s.valid.within;
        bytes = s.valid.bytes;
        sized = s.valid.sized;
        size_fits = s.valid.size_fits;
      },
      rw s.count (
          take-set_next q.count p.base (some x)
            (omega (arith, s.valid.width, s.valid.within, s.count))
          ∙ ap (λ (l : List (Option A)). l ++ some x ∷ []) s.kept),
    )

    finish-ok : (n : ℕ) → n ≤ size_max / q.element_size → (finish true q (grown n)).0 ≢ failed
    unfolding finish
    finish-ok n l = ground (arith, ge→ltb (size_max / q.element_size) n l)

    -- resize succeeds while realloc does, and twice the elements can be counted in bytes.
    resize-total :
        (required : ℕ)
        → required ≤ size_max / (2 * q.element_size)
        → default_count ≤ size_max / q.element_size
        → (resize true q required).0 ≢ failed
    unfolding resize
    resize-total required l d = elim (dec_le required q.capacity) [
      | yes h ↦ rw (le→leb required q.capacity h) (λ e. cc)
      | no g ↦
          let start : ℕ = if q.capacity == 0 then default_count else q.capacity in
          let positive : 0 < start = ground arith in
          let fine : start ≤ size_max / q.element_size = ground (arith, v.bytes) in
          let (n, e, _, b) =
            grow-grown required q.element_size required start (omega (arith, v.sized)) v.size_fits
              positive (omega arith) l in
          rw (gt→leb required q.capacity (omega arith), e)
            (finish-ok n (elim b [
              | inl same ↦ rw same fine
              | inr less ↦ twice n required q.element_size (omega (arith, v.sized)) less l
            ]))
    ]

    -- On a valid queue, push succeeds when realloc does, as long as twice the elements, and the
    -- default count of them, can be counted in bytes: it returns the cell after the last element,
    -- the queue stays valid with one cell more in use, and the elements before it are the same.
    pub push-total :
        q.count + 1 ≤ size_max / (2 * q.element_size)
        → default_count ≤ size_max / q.element_size
        → (p : Queue A) × (push true q ≡ some (q.count, p)) × Pushes p
    push-total l d = elim (push-cases true) [
      | inr done ↦ done
      | inl (_, f) ↦ absurd (resize-total (q.count + 1) l d f)
    ]

    -- clear empties the queue and keeps its array.
    clear-contents :
        IsValid (clear q) × (contents (clear q) ≡ []) × ((clear q).capacity ≡ q.capacity)
    unfolding clear contents
    clear-contents = (
      record {
        width = v.width;
        within = omega arith;
        bytes = v.bytes;
        sized = v.sized;
        size_fits = v.size_fits;
      },
      refl,
      refl,
    )
