-- ===== src/Cmd/Versioncheck/ImageRef.antt =====
-- The tag of an image reference, replaced and read again.
use Prim.Native.String.{◌++◌}
use Prim.Native.Char.{Char}
use text.Mathlib.TextLemmas.{cons-append, nil-append}
use chainplane.Prelude.{
  ◌≡◌, refl, ap, ◌∙◌, inl, inr, String, true, none, some, arith, str_eq, Option-cases,
}
use chainplane.Cmd.Versioncheck.{last_colon, parse_tag, replace_tag}

last_colon_later :
    (c : Char) (s head tag : String)
    → last_colon s ≡ some (head, tag)
    → last_colon (String.◌∷◌ c s) ≡ some (String.◌∷◌ c head, tag)
unfolding last_colon
last_colon_later c s head tag h = rw (last_colon, h) refl

-- Behind a text, the last colon of the rest is the last one.
last_colon-append :
    (s t head tag : String)
    → last_colon t ≡ some (head, tag)
    → last_colon (s ++ t) ≡ some (s ++ head, tag)
unfolding last_colon
last_colon-append String.[] t head tag h = rw (nil-append t, nil-append head) h
last_colon-append (String.◌∷◌ c s) t head tag h =
    rw (cons-append c s t, cons-append c s head)
      (last_colon_later c (s ++ t) (s ++ head) tag (last_colon-append s t head tag h))

last_colon_first : (t : String) → last_colon t ≡ none → last_colon (":" ++ t) ≡ some (":", t)
unfolding last_colon
last_colon_first t k =
    let flat : ":" ++ t ≡ String.◌∷◌ ":" t =
      cons-append ":" "" t ∙ ap (String.◌∷◌ ":") (nil-append t) in
    rw flat (rw (last_colon, k) refl)

-- Behind a text that ends at its last colon, a text without a colon stands alone.
cut-append :
    (ref head tag new_tag : String)
    → last_colon ref ≡ some (head, tag)
    → last_colon new_tag ≡ none
    → last_colon (head ++ new_tag) ≡ some (head, new_tag)
unfolding last_colon
cut-append String.[] head tag new_tag h k = ground arith
cut-append (String.◌∷◌ c s) head tag new_tag h k = elim (Option-cases (last_colon s)) [
  | inl e ↦
      let colon : str_eq (String.◌∷◌ c "") ":" ≡ true = ground arith in
      let same : head ≡ ":" = ground arith in rw same (last_colon_first new_tag k)
  | inr ((hd, tg), e) ↦
      let longer : head ≡ String.◌∷◌ c hd = ground arith in
      rw (longer, cons-append c hd new_tag)
        (last_colon_later c (hd ++ new_tag) hd new_tag (cut-append s hd tg new_tag e k))
]

-- A tag without a colon that replaceTag writes into an image reference is the tag that parseTag reads
-- from the result, whatever the reference.
pub parse_tag-replace_tag :
    (ref new_tag : String)
    → last_colon new_tag ≡ none
    → parse_tag (replace_tag ref new_tag) ≡ new_tag
unfolding parse_tag replace_tag
parse_tag-replace_tag ref new_tag k = elim (Option-cases (last_colon ref)) [
  | inl e ↦
      let found = last_colon-append ref (":" ++ new_tag) ":" new_tag (last_colon_first new_tag k) in
      rw (e, replace_tag) (rw (found, parse_tag) refl)
  | inr ((head, tag), e) ↦
      let found = cut-append ref head tag new_tag e k in
      rw (e, replace_tag) (rw (found, parse_tag) refl)
]
