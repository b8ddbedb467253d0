-- ===== src/Runtime/Gather/Placed.antt =====
-- The scatter loop of `gather_records` (src/runtime/runner_mpi.c), on records that are true.
use mathlib.Core.Path.{subst}
use mathlib.Core.Option.{some-injective}
use mpi_local_lab.Base.{
  ℕ, zero, suc, ◌+◌, ◌*◌, ◌<◌, ◌≡◌, refl, sym, ap, ◌∙◌, arith, ◌⊎◌, inl, inr, List, [], ◌∷◌, ◌++◌,
  some, length, get_elem?, get_elem?-lt, set, length-set, get_elem?-set_self, get_elem?-set_ne,
  get_elem?-append, All, ℕ_discrete,
}
use mpi_local_lab.Base.Int.{pos}
use mpi_local_lab.Types.{Picture, Match, done}
use mpi_local_lab.Runtime.{Backend}
use mpi_local_lab.Runtime.Collectives.{joined}
use mpi_local_lab.Runtime.Claims.{Entry}
use mpi_local_lab.Runtime.Claims.Invariant.{IsTrue}
use mpi_local_lab.Runtime.Gather.{encode, slot, place}

slot_of_get_elem? :
    (pictures : List Picture) (i : ℕ) {p : Picture}
    → get_elem? pictures i ≡ some p
    → slot pictures (pos i) ≡ some p
unfolding slot
slot_of_get_elem? pictures i e = ground (arith, get_elem?-lt pictures i e)

-- A record with this index is in the list.
abbrev pub Listed : List Entry → ℕ → Type 0
Listed es i = (j : ℕ) × (e : Entry) × (get_elem? es j ≡ some e) × (e.index ≡ i)

module _ (backend : Backend) (pictures : List Picture) where
  -- The entry of `matches` for picture i is what the backend may answer for it.
  abbrev pub IsAnswered : List Match → ℕ → Picture → Type 0
  IsAnswered matches i p =
      (m : Match) × backend p (done m)
      × (get_elem? matches i ≡ some (record m { picture_id = p.id }))

  pub record Placed (es : List Entry) (matches : List Match) : Type 0 where
    pub out : List Match
    pub runs : place pictures (encode es) matches ≡ done out
    pub same_length : length out ≡ length matches
    pub answered :
        (i : ℕ) (p : Picture)
        → get_elem? pictures i ≡ some p
        → IsAnswered matches i p ⊎ Listed es i
        → IsAnswered out i p

  Listed-cons-cases :
      (e : Entry) (es : List Entry) (i : ℕ) → Listed (e ∷ es) i → (e.index ≡ i) ⊎ Listed es i
  Listed-cons-cases e es i (zero, e', at, is) = inl (ap Entry.index (some-injective _ _ at) ∙ is)
  Listed-cons-cases e es i (suc j, e', at, is) = inr (j, e', at, is)

  pub place-Placed :
      (es : List Entry) (matches : List Match)
      → All (IsTrue backend pictures) es
      → length matches ≡ length pictures
      → Placed es matches
  unfolding place encode
  place-Placed [] matches true_records len = record {
    out = matches;
    runs = refl;
    same_length = refl;
    answered = λ i p at either. elim either [ inl answer ↦ answer | inr (j, e, listed, is) ↦ cc ];
  }
  place-Placed (e ∷ es) matches ((picture, match, at_e, may, is_e), true_records) len =
      let entry : Match = record {
        picture_id = picture.id;
        object_id = e.object_id;
        row = e.row;
        col = e.col;
      } in
      let next = set matches e.index entry in
      let rest = place-Placed es next true_records (length-set matches e.index entry ∙ len) in
      record {
        out = rest.out;
        runs = rw (slot_of_get_elem? pictures e.index at_e, place) rest.runs;
        same_length = rest.same_length ∙ length-set matches e.index entry;
        answered = λ i p at either. rest.answered i p at (carry i p at either);
      }
    where
      written : Match
      written = record {
        picture_id = picture.id;
        object_id = e.object_id;
        row = e.row;
        col = e.col;
      }

      carry :
          (i : ℕ) (p : Picture)
          → get_elem? pictures i ≡ some p
          → IsAnswered matches i p ⊎ Listed (e ∷ es) i
          → IsAnswered (set matches e.index written) i p ⊎ Listed es i
      carry i p at either = elim (ℕ_discrete e.index i) [
        | yes same ↦
            let inside = get_elem?-lt pictures e.index at_e in
            let self = get_elem?-set_self matches e.index written (omega (arith, inside, len)) in
            inl (
              match,
              subst (λ x. backend x (done match)) (cc (same, at, at_e)) may,
              cc (same, self, at, at_e, is_e),
            )
        | no other ↦ elim either [
          | inl (m, may', answer) ↦ inl (m, may', get_elem?-set_ne matches written other ∙ answer)
          | inr listed ↦ elim (Listed-cons-cases e es i listed) [
            | inl same ↦ absurd (other same)
            | inr later ↦ inr later
          ]
        ]
      ]

encode-append : (xs ys : List Entry) → encode (xs ++ ys) ≡ encode xs ++ encode ys
unfolding encode
encode-append [] ys = refl
encode-append (e ∷ xs) ys =
    ap (λ l. pos e.index ∷ e.object_id ∷ e.row ∷ e.col ∷ l) (encode-append xs ys)

pub length-encode : (es : List Entry) → length (encode es) ≡ length es * 4
unfolding encode
length-encode [] = refl
length-encode (e ∷ es) = omega (arith, length-encode es)

-- The blocks of all ranks are the ints of all records.
pub joined-encode :
    (n : ℕ) (records : ℕ → List Entry)
    → joined n (λ r. encode (records r)) ≡ encode (joined n records)
unfolding joined encode
joined-encode zero records = refl
joined-encode (suc n) records =
    ap (λ l. l ++ encode (records n)) (joined-encode n records)
    ∙ sym (encode-append (joined n records) (records n))

get_elem?-right {ℓ} :
    {A : Type ℓ} (xs ys : List A) (i : ℕ) → get_elem? (xs ++ ys) (length xs + i) ≡ get_elem? ys i
get_elem?-right [] ys i = ap (get_elem? ys) (omega arith)
get_elem?-right (x ∷ xs) ys i =
    let step : suc (length xs) + i ≡ suc (length xs + i) = omega arith in
    ap (get_elem? (x ∷ (xs ++ ys))) step ∙ get_elem?-right xs ys i

pub Listed-joined :
    (n : ℕ) (records : ℕ → List Entry) (r j i : ℕ) (e : Entry)
    → r < n
    → get_elem? (records r) j ≡ some e
    → e.index ≡ i
    → Listed (joined n records) i
unfolding joined
Listed-joined zero records r j i e lt at is = absurd (omega arith)
Listed-joined (suc n) records r j i e lt at is = elim (ℕ_discrete r n) [
  | yes last ↦ (
    length (joined n records) + j,
    e,
    get_elem?-right (joined n records) (records n) j
        ∙ subst (λ q. get_elem? (records q) j ≡ some e) last at,
    is,
  )
  | no ne ↦
      let (k, e', at', is') = Listed-joined n records r j i e (omega arith) at is in
      (k, e', get_elem?-append (joined n records) (records n) k at', is')
]

All-of_get_elem? {ℓ} :
    (P : Entry → Type ℓ) (xs : List Entry)
    → ((j : ℕ) (e : Entry) → get_elem? xs j ≡ some e → P e)
    → All P xs
All-of_get_elem? P [] h = tt
All-of_get_elem? P (x ∷ xs) h = (h 0 x refl, All-of_get_elem? P xs (λ j. h (suc j)))

All-append {ℓ} : (P : Entry → Type ℓ) (xs ys : List Entry) → All P xs → All P ys → All P (xs ++ ys)
All-append P [] ys h k = k
All-append P (x ∷ xs) ys h k = (h.0, All-append P xs ys h.1 k)

pub All-joined {ℓ} :
    (P : Entry → Type ℓ) (n : ℕ) (records : ℕ → List Entry)
    → ((r j : ℕ) (e : Entry) → get_elem? (records r) j ≡ some e → P e)
    → All P (joined n records)
unfolding joined
All-joined P zero records h = tt
All-joined P (suc n) records h =
    All-append P (joined n records) (records n) (All-joined P n records h)
      (All-of_get_elem? P (records n) (h n))
