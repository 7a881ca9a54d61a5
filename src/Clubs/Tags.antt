-- ===== src/Clubs/Tags.antt =====
-- `_clean_tags` of app/modules/clubs/service.py. Removing the blanks of a tag and cutting it to ten
-- characters is an argument.
use Prim.Native.Nat.{zero}
use dating_backend.Prelude.{
  ℕ, ◌≤◌, ◌≡◌, refl, Bool, false, not, ◌&&◌, ◌||◌, String, List, [], ◌∷◌, ◌++◌, arith,
  if◌then◌else◌, length, take, any, All, All-take, length-take, Bool-cases, inl, inr, suc,
}
use text.Mathlib.TextEquality.{eq_iff}
use text.Mathlib.Text.{◌==◌ as str_eq}

-- `v in seen`
abbrev pub has_text : String → List String → Bool
has_text v texts = any (str_eq v) texts

-- The loop of `_clean_tags`, from the tags seen so far.
unfoldable pub add_tags : (String → String) → List String → List String → List String
add_tags clean [] seen = seen
add_tags clean (t ∷ ts) seen =
    let v = clean t in
    add_tags clean ts
      (if not (str_eq v "") && not (has_text v seen) then seen ++ (v ∷ []) else seen)

unfoldable pub clean_tags : (String → String) → List String → List String
unfolding add_tags
clean_tags clean tags = take 6 (add_tags clean tags [])

-- Each tag is not empty, and none after it is the same.
abbrev pub AreDistinct : List String → Type 0
AreDistinct [] = Unit
AreDistinct (t ∷ ts) = (has_text t ts ≡ false) × AreDistinct ts

-- Not empty.
abbrev pub IsText : String → Type 0
IsText t = str_eq t "" ≡ false

str_eq_comm : (s t : String) → str_eq s t ≡ str_eq t s
str_eq_comm s t = ground (arith, eq_iff s t, eq_iff t s)

has_text-append :
    (t v : String) (ts : List String) → has_text t (ts ++ (v ∷ [])) ≡ (has_text t ts || str_eq t v)
has_text-append t v [] = ground arith
has_text-append t v (s ∷ ts) = ground (arith, has_text-append t v ts)

AreDistinct-append :
    (v : String) (ts : List String)
    → AreDistinct ts
    → has_text v ts ≡ false
    → AreDistinct (ts ++ (v ∷ []))
AreDistinct-append v [] h new = (refl, tt)
AreDistinct-append v (t ∷ ts) (first, h) new = (
  ground (arith, has_text-append t v ts, first, str_eq_comm t v, new),
  AreDistinct-append v ts h (ground (arith, new)),
)

All-append_one :
    (v : String) (ts : List String) → All IsText ts → IsText v → All IsText (ts ++ (v ∷ []))
All-append_one v [] h new = (new, tt)
All-append_one v (t ∷ ts) (first, h) new = (first, All-append_one v ts h new)

has_text-take :
    (n : ℕ) (t : String) (ts : List String) → has_text t ts ≡ false → has_text t (take n ts) ≡ false
has_text-take zero t ts h = refl
has_text-take (suc n) t [] h = refl
has_text-take (suc n) t (s ∷ ts) h = ground (arith, h, has_text-take n t ts)

AreDistinct-take : (n : ℕ) (ts : List String) → AreDistinct ts → AreDistinct (take n ts)
AreDistinct-take zero ts h = tt
AreDistinct-take (suc n) [] h = tt
AreDistinct-take (suc n) (t ∷ ts) (first, h) = (has_text-take n t ts first, AreDistinct-take n ts h)

add_tags-AreDistinct :
    (clean : String → String) (tags seen : List String)
    → AreDistinct seen
    → All IsText seen
    → AreDistinct (add_tags clean tags seen) × All IsText (add_tags clean tags seen)
unfolding add_tags
add_tags-AreDistinct clean [] seen d a = (d, a)
add_tags-AreDistinct clean (t ∷ tags) seen d a =
    elim (Bool-cases (not (str_eq (clean t) "") && not (has_text (clean t) seen))) [
      | inl new ↦ rw new (
          add_tags-AreDistinct clean tags (seen ++ (clean t ∷ []))
            (AreDistinct-append (clean t) seen d (ground (arith, new)))
            (All-append_one (clean t) seen a (ground (arith, new))))
      | inr old ↦ rw old (add_tags-AreDistinct clean tags seen d a)
    ]

-- The tags that are kept are at most six, none is empty, and no two are the same.
pub clean_tags-AreDistinct :
    (clean : String → String) (tags : List String)
    → AreDistinct (clean_tags clean tags)
      × All IsText (clean_tags clean tags)
      × (length (clean_tags clean tags) ≤ 6)
unfolding clean_tags
clean_tags-AreDistinct clean tags =
    let (d, a) = add_tags-AreDistinct clean tags [] tt tt in
    (
      AreDistinct-take 6 (add_tags clean tags []) d,
      All-take IsText 6 (add_tags clean tags []) a,
      omega (arith, length-take 6 (add_tags clean tags [])),
    )
