-- ===== src/Table/Invariant.antt =====
-- What the probe sequence needs: an object stands once, and no slot on the way to it is empty.
use memory_tracker.Base.{
  ℕ, zero, suc, ◌+◌, ◌≤◌, ◌<◌, ◌≡◌, sym, ap, ◌∙◌, ◌≢◌, List, arith, length, dec_lt, ℕ_discrete,
  mod-lt,
}
use memory_tracker.Value.{Value, Ruby}
use memory_tracker.Table.{Entry, at, hash_object, max_probe_length}
use memory_tracker.Table.Search.{pos, pos-lt, pos_inj, pos_onto, Passes}
use memory_tracker.Table.Slots.{copies, copies_unique, live, buried, empty_slot}

pub hash_object-lt : (o : Value) (c : ℕ) → 0 < c → hash_object o c < c
unfolding hash_object
hash_object-lt o c p = mod-lt _ p

-- The slot after `d` steps of the search for an object.
abbrev pub walk : ℕ → Value → ℕ → ℕ
walk c o d = pos c (hash_object o c) d

-- No slot before step `d` of the search is empty.
abbrev pub Crowded : List Entry → ℕ → Value → ℕ → Type 0
Crowded es c o d = (e : ℕ) → e < d → (at es (walk c o e)).object ≢ 0

-- The search for `o` meets an empty slot within MAX_PROBE_LENGTH steps.
pub record Ends (es : List Entry) (c : ℕ) (o : Value) : Type 0 where
  pub steps : ℕ
  pub round : steps < c
  pub short : steps < max_probe_length
  pub open_slot : (at es (walk c o steps)).object ≡ 0
  pub before : Crowded es c o steps

-- The first empty slot of a search, at or before a given one.
first_empty :
    (es : List Entry) (c : ℕ) (o : Value) (n d : ℕ)
    → (at es (walk c o (d + n))).object ≡ 0
    → Crowded es c o d
    → (k : ℕ) × (k ≤ d + n) × ((at es (walk c o k)).object ≡ 0) × Crowded es c o k
first_empty es c o zero d h b =
    let e : d + 0 ≡ d = omega arith in
    (d, omega arith, rw (ap (λ (k : ℕ). (at es (walk c o k)).object) e) at h, b)
first_empty es c o (suc n) d h b = elim (ℕ_discrete (at es (walk c o d)).object 0) [
  | yes z ↦ (d, omega arith, z, b)
  | no z ↦
      let e : d + suc n ≡ d + 1 + n = omega arith in
      let h' : (at es (walk c o (d + 1 + n))).object ≡ 0 =
        sym (ap (λ (k : ℕ). (at es (walk c o k)).object) e) ∙ h in
      let (k, l, t, u) =
        first_empty es c o n (d + 1) h'
          (λ j s. elim (ℕ_discrete j d) [ yes same ↦ rw same z | no less ↦ b j (omega arith) ]) in
      (k, omega arith, t, u)
]

module _ ⦃ruby : Ruby⦄ where
  -- A value that can be a key: Qnil marks deleted slots, and zero empty ones.
  pub record IsKey (o : Value) : Type 0 where
    pub ne_zero : o ≢ 0
    pub ne_nil : o ≢ ruby.nil

  pub record Reaches (es : List Entry) (c : ℕ) (o : Value) (i : ℕ) : Type 0 where
    pub steps : ℕ
    pub round : steps < c
    pub arrives : walk c o steps ≡ i
    pub before : Crowded es c o steps

  pub record Sound (c : ℕ) (es : List Entry) : Type 0 where
    pub width : length es ≡ c
    pub room : 0 < c
    pub once : (o : Value) → IsKey o → copies o es ≤ 1
    pub reach : (i : ℕ) → i < c → IsKey (at es i).object → Reaches es c (at es i).object i

  -- A table with an empty slot, and no more slots than MAX_PROBE_LENGTH, ends every search.
  pub Sound-Ends :
      {c : ℕ} {es : List Entry}
      → Sound c es
      → live es + buried es < c
      → c ≤ max_probe_length
      → (o : Value) → Ends es c o
  Sound-Ends {c} {es} s l m o =
      let (i, p, z) = empty_slot es (rw s.width l) in
      let (d, q, e) =
        pos_onto c (hash_object o c) i (hash_object-lt o c s.room) (rw s.width at p) in
      let z' : (at es (walk c o (0 + d))).object ≡ 0 =
        let e' : 0 + d ≡ d = omega arith in rw (e', e) z in
      let (k, t, u, b) = first_empty es c o d 0 z' (λ j h. elim h [ ]) in
      record { steps = k; round = omega arith; short = omega arith; open_slot = u; before = b }

  module _ {c : ℕ} {es : List Entry} (s : Sound c es) (o : Value) (key : IsKey o) where
    unique : (i j : ℕ) → i < c → j < c → (at es i).object ≡ o → (at es j).object ≡ o → i ≡ j
    unique i j l m = copies_unique o es i j (s.once o key) (rw s.width l) (rw s.width m)

    -- The walk to the object passes only other objects and tombstones, and is no longer than
    -- the walk to an empty slot.
    pub Passes-reached :
        (i : ℕ)
        → i < c
        → (at es i).object ≡ o
        → (d : ℕ) × (d < c) × (walk c o d ≡ i) × Passes es c (hash_object o c) o 0 d
    Passes-reached i l e =
        let key' : IsKey (at es i).object = rw e key in
        let r : Reaches es c o i = rw e at (s.reach i l key') in
        (
          r.steps,
          r.round,
          r.arrives,
          λ j _ m. (
            r.before j m,
            λ x.
                let same : walk c o j ≡ walk c o r.steps =
                  unique _ _ (pos-lt c _ j s.room) (rw r.arrives l) x (rw r.arrives e) in
                absurd (
                  omega (
                    arith,
                    pos_inj c (hash_object o c) j r.steps (hash_object-lt o c s.room) (omega arith)
                        r.round same,
                  )),
          ),
        )

    pub shorter : (d : ℕ) (n : Ends es c o) → d < c → Crowded es c o d → d ≤ n.steps
    shorter d n l b = elim (dec_lt n.steps d) [
      | yes m ↦ absurd (b n.steps m n.open_slot)
      | no m ↦ omega arith
    ]
