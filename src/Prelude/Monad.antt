-- ===== src/Prelude/Monad.antt =====
-- Computations that change a state and may throw. An exception keeps the changes made before it.

use mathlib.Core.Bool.{Bool, true, false}

-- What the program throws, one constructor for each message; `null_dereference` and
-- `assertion` stand for a dereference of a null pointer and for a failed D_ASSERT.
pub data Error : Type 0 where
  max_databases insufficient_space no_database_attached no_such_file unknown_file_type : Error
  read_out_of_range write_out_of_range db_truncate_exceeded wal_truncate_exceeded : Error
  unknown_directory no_metadata seek_out_of_bounds not_attached : Error
  no_free_block block_size_mismatch unknown_buffer_size bad_number : Error
  not_nvme_device device_failure queue_failure no_buffer unknown_backend : Error
  null_dereference assertion division_by_zero out_of_fuel no_secret wrong_secret_type
        cannot_open_device fdp_unsupported use_after_free :
      Error

pub data Run {ℓ κ} (S : Type ℓ) (A : Type κ) : Type (ℓ ⊔ κ) where
  ok : A → S → Run S A
  err : Error → S → Run S A

abbrev pub Cmd {ℓ κ} : Type ℓ → Type κ → Type (ℓ ⊔ κ)
Cmd S A = S → Run S A

abbrev pub pure {ℓ κ} : {S : Type ℓ} {A : Type κ} → A → Cmd S A
pure a s = ok a s

abbrev pub throw {ℓ κ} : {S : Type ℓ} {A : Type κ} → Error → Cmd S A
throw e s = err e s

abbrev pub and_then {ℓ κ μ} :
    {S : Type ℓ} {A : Type κ} {B : Type μ} → Run S A → (A → Cmd S B) → Run S B
and_then (ok a s) k = k a s
and_then (err e s) k = err e s

infixl 5 ◌>>=◌ ◌>>◌
abbrev pub ◌>>=◌ {ℓ κ μ} :
    {S : Type ℓ} {A : Type κ} {B : Type μ} → Cmd S A → (A → Cmd S B) → Cmd S B
m >>= k = λ s. and_then (m s) k

abbrev pub ◌>>◌ {ℓ κ} : {S : Type ℓ} {B : Type κ} → Cmd S (Unit {0}) → Cmd S B → Cmd S B
m >> n = m >>= λ _. n

abbrev pub get {ℓ} : {S : Type ℓ} → Cmd S S
get s = ok s s

abbrev pub put {ℓ} : {S : Type ℓ} → S → Cmd S (Unit {0})
put s _ = ok tt s

abbrev pub modify {ℓ} : {S : Type ℓ} → (S → S) → Cmd S (Unit {0})
modify f s = ok tt (f s)

abbrev pub throw_if {ℓ} : {S : Type ℓ} → Bool → Error → Cmd S (Unit {0})
throw_if true e s = err e s
throw_if false e s = ok tt s

-- The state that a run leaves behind, whether it returned or threw.
abbrev pub final {ℓ κ} : {S : Type ℓ} {A : Type κ} → Run S A → S
final (ok a s) = s
final (err e s) = s
