-- ===== src/Img/Outcome.antt =====
-- The results of kernel/src/apps/web/img/inflate.rs: a value, one of the errors that its texts name,
-- or a panic at an index out of range. `stuck` is the model's own: a loop's fuel has run out.
use barry_os.Common.{Bool, ◌≡◌, true, false, refl}

pub data Error : Type 0 where
  truncated long_code no_codes assigned_twice no_match : Error
  no_header not_deflate bad_check preset_dictionary undefined_type : Error
  no_length not_complement past_end too_large : Error
  nothing_to_repeat run_off_end not_a_length_code not_a_length not_a_distance before_start : Error

pub data Outcome {ℓ} (A : Type ℓ) : Type ℓ where
  ok : A → Outcome A
  err : Error → Outcome A
  panic : Outcome A
  stuck : Outcome A

infixl 5 ◌>>=◌ ◌>>◌
abbrev pub ◌>>=◌ {ℓ κ} : {A : Type ℓ} {B : Type κ} → Outcome A → (A → Outcome B) → Outcome B
ok a >>= f = f a
err e >>= f = err e
panic >>= f = panic
stuck >>= f = stuck

abbrev pub ◌>>◌ {ℓ} : {B : Type ℓ} → Outcome (Unit {0}) → Outcome B → Outcome B
m >> k = m >>= λ _. k

-- `if test { return Err(e) }`
abbrev pub refuse : Bool → Error → Outcome (Unit {0})
refuse true e = err e
refuse false e = ok tt

-- A property of the value, when there is one; a loop never runs out of fuel.
abbrev pub Ensures {ℓ} : {A : Type ℓ} → (A → Type 0) → Outcome A → Type 0
Ensures P (ok a) = P a
Ensures P (err e) = Unit
Ensures P panic = Unit
Ensures P stuck = ⊥

pub Ensures->>= {ℓ κ} :
    {A : Type ℓ} {B : Type κ} (P : A → Type 0) (Q : B → Type 0) (m : Outcome A) (f : A → Outcome B)
    → Ensures P m
    → ((a : A) → P a → Ensures Q (f a))
    → Ensures Q (m >>= f)
Ensures->>= P Q (ok a) f p k = k a p
Ensures->>= P Q (err e) f p k = tt
Ensures->>= P Q panic f p k = tt
Ensures->>= P Q stuck f p k = absurd p

pub Ensures-weaken {ℓ} :
    {A : Type ℓ} (P Q : A → Type 0) (m : Outcome A)
    → Ensures P m
    → ((a : A) → P a → Q a)
    → Ensures Q m
Ensures-weaken P Q (ok a) p k = k a p
Ensures-weaken P Q (err e) p k = tt
Ensures-weaken P Q panic p k = tt
Ensures-weaken P Q stuck p k = absurd p

pub Ensures-refuse {ℓ} :
    {B : Type ℓ} (Q : B → Type 0) (b : Bool) (e : Error) (k : Outcome B)
    → (b ≡ false → Ensures Q k)
    → Ensures Q (refuse b e >> k)
Ensures-refuse Q true e k h = tt
Ensures-refuse Q false e k h = h refl
