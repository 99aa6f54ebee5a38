-- ===== src/Validate/Account.antt =====
-- What the rules of internal/validate/user.go accept, and that what they return is accepted again.
use toomanyhours_api.Prelude.{
  ℕ, ◌*◌, ◌≡◌, ◌≤◌, ◌↔◌, refl, ap, ◌⊎◌, Bool, true, false, [], ◌∷◌, Option, none, some, ok, arith,
  length, All,
}
use toomanyhours_api.Text.{Text, byte_len, rune_len, is_space, to_lower, to_lower_rune, IsCaseTable}
use toomanyhours_api.Text.Case.{to_lower_idem, to_lower_rune-is_space}
use toomanyhours_api.Text.Trim.{
  trim_space, trim_space_idem, trim_space_solid, trim_space-map, NoSpace,
}
use toomanyhours_api.Validate.{
  username, email, password, bio, review, normalize, charset_ok, is_name_rune, is_member,
  reserved_usernames, is_empty, bio_max_runes, review_max_runes,
}

-- A lower-case ASCII letter, a digit or the underscore.
abbrev pub IsNameRune : ℕ → Type 0
IsNameRune r = ((97 ≤ r) × (r ≤ 122)) ⊎ ((48 ≤ r) × (r ≤ 57)) ⊎ (r ≡ 95)

-- What a stored username looks like.
pub record IsUsername (is_profane : Text → Bool) (name : Text) : Type 0 where
  pub long_enough : 3 ≤ byte_len name
  pub short_enough : byte_len name ≤ 16
  pub charset : All IsNameRune name
  pub unreserved : is_member name reserved_usernames ≡ false
  pub decent : is_profane name ≡ false

is_name_rune_iff : (r : ℕ) → (is_name_rune r ≡ true) ↔ IsNameRune r
unfolding is_name_rune
is_name_rune_iff r = ground arith

charset_ok→All : (t : Text) → charset_ok t ≡ true → All IsNameRune t
unfolding charset_ok
charset_ok→All [] h = tt
charset_ok→All (r ∷ rs) h = ground (arith, (is_name_rune_iff r).0, charset_ok→All rs)

All→charset_ok : (t : Text) → All IsNameRune t → charset_ok t ≡ true
unfolding charset_ok
All→charset_ok [] h = refl
All→charset_ok (r ∷ rs) h = ground (arith, (is_name_rune_iff r).1 h.0, All→charset_ok rs h.1)

name_rune-not-space : (r : ℕ) → IsNameRune r → is_space r ≡ false
unfolding is_space
name_rune-not-space r h = ground arith

charset-NoSpace : (t : Text) → All IsNameRune t → NoSpace t
charset-NoSpace [] h = tt
charset-NoSpace (r ∷ rs) h = (name_rune-not-space r h.0, charset-NoSpace rs h.1)

to_lower_rune-name : (wide : ℕ → ℕ) (r : ℕ) → IsNameRune r → to_lower_rune wide r ≡ r
unfolding to_lower_rune
to_lower_rune-name wide r h = ground arith

to_lower-name : (wide : ℕ → ℕ) (t : Text) → All IsNameRune t → to_lower wide t ≡ t
unfolding to_lower
to_lower-name wide [] h = refl
to_lower-name wide (r ∷ rs) h = cc (to_lower_rune-name wide r h.0, to_lower-name wide rs h.1)

-- A name in the charset is its own normal form.
normalize-name : (wide : ℕ → ℕ) (t : Text) → All IsNameRune t → normalize wide t ≡ t
unfolding normalize
normalize-name wide t h = rw (trim_space_solid t (charset-NoSpace t h)) (to_lower-name wide t h)

byte_len-name : (t : Text) → All IsNameRune t → byte_len t ≡ length t
unfolding byte_len
byte_len-name [] h = refl
byte_len-name (r ∷ rs) h = ground (arith, byte_len-name rs h.1)

module _ (wide : ℕ → ℕ) (is_profane : Text → Bool) where
  accepted→IsUsername :
      (raw name : Text)
      → username wide is_profane raw ≡ ok name
      → (normalize wide raw ≡ name) × IsUsername is_profane name
  unfolding username
  accepted→IsUsername raw name h =
      ground (arith, charset_ok→All (normalize wide raw), charset_ok→All name)

  IsUsername→accepted :
      (raw name : Text)
      → normalize wide raw ≡ name
      → IsUsername is_profane name
      → username wide is_profane raw ≡ ok name
  unfolding username
  IsUsername→accepted raw name e v =
      rw e (ground (arith, All→charset_ok name v.charset, v.unreserved, v.decent))

  -- A username is accepted, and stored as `name`, exactly when `name` is the normal form of the
  -- input, 3 to 16 bytes of lower-case letters, digits and underscores, not reserved, not profane.
  pub username-IsUsername :
      (raw name : Text)
      → (username wide is_profane raw ≡ ok name)
        ↔ ((normalize wide raw ≡ name) × IsUsername is_profane name)
  username-IsUsername raw name =
      (accepted→IsUsername raw name, λ (e, v). IsUsername→accepted raw name e v)

  -- An accepted username has 3 to 16 characters, and as many bytes as characters.
  pub username-length :
      (raw name : Text)
      → username wide is_profane raw ≡ ok name
      → (3 ≤ length name) × (length name ≤ 16) × (byte_len name ≡ length name)
  username-length raw name h =
      let (e, v) = accepted→IsUsername raw name h in omega (arith, byte_len-name name v.charset)

-- The stored form of an accepted username is accepted, and is its own stored form, also under
-- another case table.
pub username_idem :
    (wide wide' : ℕ → ℕ) (is_profane : Text → Bool) (raw name : Text)
    → username wide is_profane raw ≡ ok name
    → username wide' is_profane name ≡ ok name
username_idem wide wide' is_profane raw name h =
    let (e, v) = accepted→IsUsername wide is_profane raw name h in
    IsUsername→accepted wide' is_profane name name (normalize-name wide' name v.charset) v

normalize_idem :
    (wide : ℕ → ℕ)
    → IsCaseTable wide
    → (t : Text) → normalize wide (normalize wide t) ≡ normalize wide t
unfolding normalize
normalize_idem wide c t =
    rw (to_lower-trim (trim_space t), trim_space_idem t) (to_lower_idem wide c (trim_space t))
  where
    to_lower-trim : (u : Text) → trim_space (to_lower wide u) ≡ to_lower wide (trim_space u)
    to_lower-trim u =
        unfold to_lower in trim_space-map (to_lower_rune wide) (to_lower_rune-is_space wide c) u

-- The stored form of an accepted email address is accepted again and does not change.
pub email_idem :
    (wide : ℕ → ℕ) (parses_address : Text → Bool) (raw addr : Text)
    → IsCaseTable wide
    → email wide parses_address raw ≡ ok addr
    → email wide parses_address addr ≡ ok addr
unfolding email
email_idem wide parses_address raw addr c h =
    ground (arith, normalize_idem wide c raw, ap (normalize wide) (ok_normal raw addr h))
  where
    ok_normal : (r a : Text) → email wide parses_address r ≡ ok a → normalize wide r ≡ a
    ok_normal r a k = ground arith

rune_len_bounds : (r : ℕ) → (1 ≤ rune_len r) × (rune_len r ≤ 4)
unfolding rune_len
rune_len_bounds r = ground arith

-- A text has at most as many runes as bytes, and at most four bytes for each.
byte_len_bounds : (t : Text) → (length t ≤ byte_len t) × (byte_len t ≤ 4 * length t)
unfolding byte_len
byte_len_bounds [] = omega arith
byte_len_bounds (r ∷ rs) = omega (arith, rune_len_bounds r, byte_len_bounds rs)

-- A password is accepted exactly when it has 8 characters at least and 72 bytes at most.
pub password_iff : (raw : Text) → (password raw ≡ ok tt) ↔ ((8 ≤ length raw) × (byte_len raw ≤ 72))
unfolding password
password_iff raw = (ground arith, ground arith)

-- What is stored of an optional text with a limit on its runes: nothing, or a text that is
-- trimmed, not blank and within the limit.
abbrev pub IsStored : ℕ → Option Text → Type 0
IsStored cap none = Unit
IsStored cap (some t) = (trim_space t ≡ t) × (is_empty t ≡ false) × (length t ≤ cap)

-- A stored biography is within its limit, and storing it again changes nothing.
pub bio-IsStored :
    (raw stored : Option Text)
    → bio raw ≡ ok stored
    → IsStored bio_max_runes stored × (bio stored ≡ ok stored)
unfolding bio
bio-IsStored none stored h = ground arith
bio-IsStored (some raw) none h = ground arith
bio-IsStored (some raw) (some t) h = ground (arith, trim_space_idem raw)

-- A stored review is within its limit, and storing it again changes nothing.
pub review-IsStored :
    (raw stored : Option Text)
    → review raw ≡ ok stored
    → IsStored review_max_runes stored × (review stored ≡ ok stored)
unfolding review
review-IsStored none stored h = ground arith
review-IsStored (some raw) none h = ground arith
review-IsStored (some raw) (some t) h = ground (arith, trim_space_idem raw)
