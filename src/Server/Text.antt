-- ===== src/Server/Text.antt =====
-- The texts of a login (auth.rs): addresses and device names, as Unicode code points where they are
-- read. Byte counts are those of UTF-8.
use Prim.Native.Char.{Char, code}
use zca_desktop.Common.{
  codes, byte_len, is_whitespace, ℕ, String, Bool, true, false, not, ◌||◌, if◌then◌else◌, ltb, eqb,
  any, Result, ok, err, ◌≡◌, ◌≤◌, arith,
}
use zca_desktop.Server.{AppError, bad_request, Library}

unfoldable pub trim_start : String → String
trim_start String.[] = String.[]
trim_start (String.◌∷◌ c s) =
    let rest = trim_start s in if is_whitespace (code c) then rest else String.◌∷◌ c s

abbrev keep_unless_blank : Char → String → String
keep_unless_blank c String.[] = if is_whitespace (code c) then String.[] else String.◌∷◌ c String.[]
keep_unless_blank c (String.◌∷◌ d s) = String.◌∷◌ c (String.◌∷◌ d s)

unfoldable pub trim_end : String → String
trim_end String.[] = String.[]
trim_end (String.◌∷◌ c s) = keep_unless_blank c (trim_end s)

abbrev pub trim : String → String
trim s = trim_end (trim_start s)

-- The bytes of a UTF-8 text below 128 are its code points below 128.
unfoldable pub is_control : ℕ → Bool
is_control c = ltb c 32 || eqb c 127

abbrev pub is_at : ℕ → Bool
is_at c = eqb c 64

unfoldable pub normalize_email : Library → String → Result AppError String
normalize_email lib raw =
    let email = lib.to_lowercase (trim raw) in
    if any is_control (codes email)
    then err (bad_request "a valid email is required")
    else if not (any is_at (codes email)) || ltb 320 (byte_len (codes email))
    then err (bad_request "a valid email is required")
    else ok email

unfoldable pub validate_device_name : String → Result AppError String
validate_device_name raw =
    let name = trim raw in
    if eqb (byte_len (codes name)) 0 || ltb 80 (byte_len (codes name))
    then err (bad_request "device name is required")
    else ok name

-- An address that is accepted, whatever was sent, holds an @, no control character, and at most
-- 320 bytes.
pub normalize_email_lem :
    (lib : Library) (raw : String) {email : String}
    → normalize_email lib raw ≡ ok email
    → (any is_control (codes email) ≡ false)
      × (any is_at (codes email) ≡ true)
      × (byte_len (codes email) ≤ 320)
unfolding normalize_email
normalize_email_lem lib raw h = ground arith
