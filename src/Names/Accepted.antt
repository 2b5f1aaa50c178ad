-- ===== src/Names/Accepted.antt =====
-- Which names pass, and which make the check panic.
use agent_teams_mcp.Base.{
  Text, text, ==_iff, ◌≡◌, refl, ◌≢◌, ◌↔◌, ℕ, zero, suc, ◌+◌, ◌-◌, ◌*◌, ◌≤◌, ◌<◌, len, has_char,
  Bool, true, false, ◌||◌, none, [], ◌∷◌, arith, all, nat_eq, length, utf8_width,
}
use agent_teams_mcp.Error.{ok, panic, ran_both}
use agent_teams_mcp.Names.{
  byte_prefix, too_long_error, validate_name, is_ascii_lowercase, is_ascii_digit, is_slug_char,
  bad_of, check_slug_chars, validate_slug_rest, validate_slug_name,
}

-- A name that is one component of a path.
pub record IsComponent (name : Text) : Type 0 where
  pub nonempty : name ≢ []
  pub short : len name ≤ 255
  pub no_slash : has_char b'/' name ≡ false
  pub no_backslash : has_char b'\\' name ≡ false
  pub no_null : has_char 0 name ≡ false
  pub not_here : name ≢ text "."
  pub not_parent : name ≢ text ".."

too_long_error-ne-ok : (name : Text) → too_long_error name ≢ ok tt
unfolding too_long_error
too_long_error-ne-ok name = ground arith

validate_name-ok→ : (name : Text) → validate_name name ≡ ok tt → IsComponent name
unfolding validate_name
validate_name-ok→ name h =
    let long = too_long_error-ne-ok name in
    record {
      nonempty = ground (arith, ==_iff name [], long);
      short = ground (arith, long);
      no_slash = ground (arith, long);
      no_backslash = ground (arith, long);
      no_null = ground (arith, long);
      not_here = ground (arith, ==_iff name (text "."), long);
      not_parent = ground (arith, ==_iff name (text ".."), long);
    }

validate_name-ok← : (name : Text) → IsComponent name → validate_name name ≡ ok tt
unfolding validate_name
validate_name-ok← name h =
    ground (arith, ==_iff name [], ==_iff name (text "."), ==_iff name (text ".."))

-- Exactly the names that are one component of a path are accepted: not empty, at most 255 bytes,
-- without a separator or a null character, and neither `.` nor `..`.
pub validate_name_iff : (name : Text) → (validate_name name ≡ ok tt) ↔ IsComponent name
validate_name_iff name = (validate_name-ok→ name, validate_name-ok← name)

abbrev pub IsWide : Text → Type 0
IsWide name = all (λ c. nat_eq (utf8_width c) 3) name ≡ true

pub byte_prefix-IsWide :
    (k : ℕ) (name : Text) → IsWide name → k < length name → byte_prefix (3 * k + 2) name ≡ none
unfolding byte_prefix
byte_prefix-IsWide k [] wide h = absurd (omega arith)
byte_prefix-IsWide zero (c ∷ name) wide h = ground arith
byte_prefix-IsWide (suc k) (c ∷ name) wide h =
    let same : 3 * suc k + 2 - 3 ≡ 3 * k + 2 = omega arith in
    let ih = byte_prefix-IsWide k name (ground arith) (omega arith) in
    ground (arith, rw (← same) at ih)

pub len-IsWide : (name : Text) → IsWide name → len name ≡ 3 * length name
unfolding len
len-IsWide [] wide = omega arith
len-IsWide (c ∷ name) wide = ground (arith, len-IsWide name)

-- A long name whose characters all take three bytes, as in Chinese or Japanese, makes the check
-- panic instead of reporting the error: byte 32 lies inside a character.
pub validate_name-IsWide :
    (name : Text) → IsWide name → 86 ≤ length name → validate_name name ≡ panic
unfolding validate_name
validate_name-IsWide name wide h =
    ground
      (arith, len-IsWide name wide, byte_prefix-IsWide 10 name wide (omega arith), ==_iff name [])

-- A slug begins with a lowercase letter or a digit.
abbrev pub starts_well : Text → Bool
starts_well [] = false
starts_well (c ∷ _) = is_ascii_lowercase c || is_ascii_digit c

pub record IsSlug (name : Text) : Type 0 where
  pub component : IsComponent name
  pub short : len name ≤ 64
  pub start : starts_well name ≡ true
  pub chars : all is_slug_char name ≡ true

bad_of_iff : (name : Text) → (bad_of name ≡ []) ↔ (all is_slug_char name ≡ true)
unfolding bad_of
bad_of_iff [] = (λ _. refl, λ _. refl)
bad_of_iff (c ∷ name) = ground (arith, bad_of_iff name)

check_slug_chars_iff :
    (name chars : Text)
    → (check_slug_chars name chars ≡ ok tt)
      ↔ ((starts_well chars ≡ true) × (all is_slug_char name ≡ true))
unfolding check_slug_chars
check_slug_chars_iff name [] = (λ e. cc, λ h. cc (h.0))
check_slug_chars_iff name (c ∷ cs) = ground (arith, bad_of_iff name, ==_iff (bad_of name) [])

-- Exactly the slugs are accepted: components of at most 64 bytes that begin with a lowercase letter
-- or a digit and hold nothing but lowercase letters, digits, `_`, `-` and `.`.
pub validate_slug_name_iff : (name : Text) → (validate_slug_name name ≡ ok tt) ↔ IsSlug name
unfolding validate_slug_name validate_slug_rest
validate_slug_name_iff name =
    let (to_chars, of_chars) = check_slug_chars_iff name name in
    (
      λ h.
          let (done, first, rest) = ran_both (validate_name name) h in
          record {
            component = validate_name-ok→ name first;
            short = ground (arith, rest);
            start = (to_chars (ground (arith, rest))).0;
            chars = (to_chars (ground (arith, rest))).1;
          },
      λ h.
          rw (validate_name-ok← name h.component)
            (ground (arith, of_chars (h.start, h.chars), h.short)),
    )
