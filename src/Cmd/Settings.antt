-- ===== src/Cmd/Settings.antt =====
-- Settings of the environment.
use stevy.Base.{
  ◌≡◌, refl, ◌≢◌, false, List, [], ◌∷◌, ◌++◌, All, arith, if◌then◌else◌, ◌==◌, ap, ◌∙◌,
}
use stevy.Base.Text.{Text, text_eq, text_discrete}
use stevy.Base.Trim.{trim_space, split, byte_eq}
use stevy.Cmd.{split_csv, not_blank}

-- An entry of a list of domains: not empty, without commas and without spaces around it.
pub record IsEntry (d : Text) : Type 0 where
  pub some_text : d ≢ []
  pub bare : All (λ c. (c == b',') ≡ false) d
  pub trimmed : trim_space d ≡ d

-- The entries with commas between them.
abbrev pub comma_list : List Text → Text
comma_list [] = []
comma_list (d ∷ []) = d
comma_list (d ∷ f ∷ ds) = d ++ (b',' ∷ comma_list (f ∷ ds))

split-bare : (d : Text) → All (λ c. (c == b',') ≡ false) d → split b',' d ≡ d ∷ []
unfolding split
split-bare [] h = refl
split-bare (c ∷ d) h = rw (h.0, split-bare d h.1) refl

split-append :
    (d s : Text)
    → All (λ c. (c == b',') ≡ false) d
    → split b',' (d ++ (b',' ∷ s)) ≡ d ∷ split b',' s
unfolding split
split-append [] s h = ground arith
split-append (c ∷ d) s h = rw (h.0, split-append d s h.1) refl

kept : (d : Text) (ds : List Text) → IsEntry d → not_blank (d ∷ ds) ≡ d ∷ not_blank ds
kept d ds h = elim (text_eq.dec d []) [
  | yes blank ↦ absurd (h.some_text blank)
  | no text ↦ rw h.trimmed (ground arith)
]

entries :
    (d : Text) (ds : List Text)
    → All IsEntry (d ∷ ds)
    → not_blank (split b',' (comma_list (d ∷ ds))) ≡ d ∷ ds
entries d [] h = rw (split-bare d h.0.bare) (kept d [] h.0)
entries d (f ∷ ds) h =
    rw (split-append d (comma_list (f ∷ ds)) h.0.bare)
      (kept d (split b',' (comma_list (f ∷ ds))) h.0 ∙ ap (◌∷◌ d) (entries f ds h.1))

csv_of : (s : Text) → split_csv s ≡ (if s == [] then [] else not_blank (split b',' s))
unfolding split_csv
csv_of [] = ground arith
csv_of (c ∷ s) = ground arith

chosen : (s : Text) (xs : List Text) → s ≢ [] → (if s == [] then [] else xs) ≡ xs
chosen [] xs h = absurd (h refl)
chosen (c ∷ s) xs h = ground arith

nothing_read :
    (es : List Text) (d : Text) (ds : List Text) → es ≡ d ∷ ds → ¬ (not_blank (split b',' []) ≡ es)
unfolding split trim_space text_discrete
nothing_read es d ds same e = ground arith

-- Entries that are not empty, have no commas and no spaces around them are read back from their list
-- with commas.
pub split_csv-comma_list : (ds : List Text) → All IsEntry ds → split_csv (comma_list ds) ≡ ds
unfolding split_csv
split_csv-comma_list [] h = refl
split_csv-comma_list (d ∷ ds) h = elim (text_eq.dec (comma_list (d ∷ ds)) []) [
  | yes e ↦ absurd (nothing_read (d ∷ ds) d ds refl (rw e at (entries d ds h)))
  | no text ↦ csv_of (comma_list (d ∷ ds)) ∙ (chosen (comma_list (d ∷ ds)) _ text ∙ entries d ds h)
]
