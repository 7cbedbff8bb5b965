-- ===== src/Prelude/Errors.antt =====
-- error.rs: `CassetteError` and `Result`. The payloads of `Io` and `Serialization` are errors of the
-- standard library and of serde_json; of the first only the kind that the program tests is kept.
use Prim.Native.String.{String}
use mathlib.Core.Option.{Option, none, some}
use mathlib.Core.Bool.{Bool, true, false}
use mathlib.Core.Path.{◌≡◌, refl}
use native.Mathlib.Omega.{arith}

pub data IoKind : Type 0 where
  unexpected_eof other : IoKind

pub data CassetteError : Type 0 where
  io : IoKind → CassetteError
  serialization : CassetteError
  corrupt invalid_query not_found : String → CassetteError
  conflict : CassetteError
  wal index replication backup cluster shard dist_tx : String → CassetteError

pub data Result {ℓ} (T : Type ℓ) : Type ℓ where
  err : CassetteError → Result T
  ok : T → Result T

-- The `?` operator.
infixl 5 ◌>>=◌
abbrev pub ◌>>=◌ {ℓ κ} : {T : Type ℓ} {U : Type κ} → Result T → (T → Result U) → Result U
err reason >>= next = err reason
ok value >>= next = next value

-- `ok_or_else`
abbrev pub ok_or {ℓ} : {T : Type ℓ} → Option T → CassetteError → Result T
ok_or (some value) reason = ok value
ok_or none reason = err reason

-- `if !test { return Err(reason); }`
abbrev pub ensure : Bool → CassetteError → Result (Unit {0})
ensure test reason = elim test [ true ↦ ok tt | false ↦ err reason ]

infixl 5 ◌>>◌
abbrev pub ◌>>◌ {ℓ} : {U : Type ℓ} → Result (Unit {0}) → Result U → Result U
first >> second = first >>= λ _. second

-- `Result::is_ok`
abbrev pub is_ok {ℓ} : {T : Type ℓ} → Result T → Bool
is_ok (ok value) = true
is_ok (err reason) = false

pub >>=-ok {ℓ κ} :
    {T : Type ℓ} {U : Type κ} (r : Result T) (next : T → Result U) {u : U}
    → (r >>= next) ≡ ok u
    → (t : T) × (r ≡ ok t) × (next t ≡ ok u)
>>=-ok (err reason) next h = cc
>>=-ok (ok t) next h = (t, refl, h)

pub ok_or-ok {ℓ} :
    {T : Type ℓ} (o : Option T) (reason : CassetteError) {t : T}
    → ok_or o reason ≡ ok t
    → o ≡ some t
ok_or-ok none reason h = cc
ok_or-ok (some t) reason h = ground arith

pub >>=-assoc {ℓ κ μ} :
    {T : Type ℓ} {U : Type κ} {W : Type μ} (r : Result T) (f : T → Result U) (g : U → Result W)
    → ((r >>= f) >>= g) ≡ (r >>= λ t. f t >>= g)
>>=-assoc (err reason) f g = refl
>>=-assoc (ok t) f g = refl
