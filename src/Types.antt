-- ===== src/Types.antt =====
-- include/msearch/types.h: the data types that every layer shares.
use mpi_local_lab.Base.{ℕ, ◌≡◌, ◌⊎◌, inl, inr, refl, Bool, List, Option, some}
use mpi_local_lab.Base.Int.{ℤ, pos, negsuc, leb_ℤ}
use mpi_local_lab.Floating.{Floating}

-- `Status`; `MSEARCH_OK` is `ok`.
pub data Status : Type 0 where
  ok err_io err_parse err_invalid err_nomem err_backend err_unavailable : Status

-- `data` is `none` for NULL, and else the elements of the array that it points to.
pub record Picture : Type 0 where
  pub id : ℤ
  pub n : ℤ
  pub elems : Option (List ℤ)

pub record Object : Type 0 where
  pub id : ℤ
  pub m : ℤ
  pub elems : Option (List ℤ)

-- An array is the list of its elements; the counts stay fields, as the code sets and tests them.
pub record Problem (F : Floating) : Type 0 where
  pub threshold : F.Double
  pub num_pictures : ℤ
  pub pictures : List Picture
  pub num_objects : ℤ
  pub objects : List Object

pub record Match : Type 0 where
  pub picture_id : ℤ
  pub object_id : ℤ
  pub row : ℤ
  pub col : ℤ

unfoldable pub match_found : Match → Bool
match_found match = leb_ℤ (pos 0) match.object_id

abbrev pub match_none : ℤ → Match
match_none id = record { picture_id = id; object_id = negsuc 0; row = negsuc 0; col = negsuc 0 }

-- What a diagnostic is about.
pub data Kind : Type 0 where
  picture object : Kind

-- What the reader expects next.
pub data Label : Type 0 where
  threshold_label picture_count picture_id picture_size object_count object_id object_size : Label
  element : (position elems : ℕ) → Kind → (id : ℤ) → Label

-- The text that `msearch_set_err` leaves in the message buffer, by what varies in it.
pub data Message : Type 0 where
  cannot_allocate_array : Kind → ℤ → Message
  size_not_positive : Kind → (id side : ℤ) → Message
  size_too_large : Kind → (id side : ℤ) → Message
  cannot_allocate_context : Message
  cannot_allocate_elements : Kind → (id : ℤ) → Message
  threshold_not_positive : Message
  negative_count : Message
  index_out_of_range : ℤ → Message
  cannot_allocate_gather : Message
  incomplete : Kind → (id : ℤ) → Message
  too_many_placements : (id n : ℤ) → Message
  token_too_long : (line : ℤ) → Message
  unexpected_end : (line : ℤ) → Label → Message
  expected : (line : ℤ) → Label → (token : List ℕ) → Message
  count_out_of_range : (line : ℤ) → Label → (count : ℤ) → Message
  cannot_open : Message
  bcast_failed : Message
  cuda_failed : Message
  cannot_open_output : Message
  write_failed : Message
  close_failed : Message
  cannot_allocate_buffers : Message
  backends_disagreed : (failures : ℕ) → Message
  no_cuda_device : Message
  device_not_visible : (device device_count : ℤ) → Message
  cannot_allocate_offsets : Message
  cannot_allocate_shapes : Message
  requires_value : (flag : List ℕ) → Message
  unknown_backend : (name : List ℕ) → Message
  unknown_option : (arg : List ℕ) → Message
  integer_expected : (flag : List ℕ) → (min_value : ℤ) → (text : List ℕ) → Message
  positive_expected : (text : List ℕ) → Message

-- A `Status` with its message, or the state that the operation leaves behind.
pub data Result {ℓ} (A : Type ℓ) : Type ℓ where
  done : A → Result A
  err : Status → Message → Result A

-- `if (status != MSEARCH_OK) return status;`
infixl 5 ◌>>=◌
abbrev pub ◌>>=◌ {ℓ κ} : {A : Type ℓ} {B : Type κ} → Result A → (A → Result B) → Result B
done a >>= f = f a
err s e >>= f = err s e

pub >>=-eq-done {ℓ κ} :
    {A : Type ℓ} {B : Type κ} (x : Result A) (f : A → Result B) {b : B}
    → (x >>= f) ≡ done b
    → (a : A) × (x ≡ done a) × (f a ≡ done b)
>>=-eq-done (done a) f e = (a, refl, e)
>>=-eq-done (err s m) f e = cc

-- A step that may fail in front of a rest that may also fault.
abbrev pub attempt {ℓ κ} :
    {A : Type ℓ} {B : Type κ} → Result A → (A → Option (Result B)) → Option (Result B)
attempt (done a) f = f a
attempt (err s e) f = some (err s e)

-- To split on a computed result and keep the equation.
pub Result-cases {ℓ} :
    {A : Type ℓ} (x : Result A)
    → ((s : Status) × (m : Message) × (x ≡ err s m)) ⊎ ((a : A) × (x ≡ done a))
Result-cases (err s m) = inl (s, m, refl)
Result-cases (done a) = inr (a, refl)

pub done-injective {ℓ} : {A : Type ℓ} {a b : A} → done a ≡ done b → a ≡ b
done-injective e = cc
