-- ===== src/Nolint/Laws.antt =====
-- What a line of the file changes in the suppressions.
use cs.Base.{
  ℕ, ◌≡◌, Bool, true, false, ◌&&◌, ◌||◌, Option, none, some, option_beq, List, [], ◌∷◌, Text, arith,
  contains, update, lookup_or-update, ◌==◌, ==_iff, text_eq, nat_eq, option_eq, if◌then◌else◌,
}
use cs.Re.{Found, group_of, search_in}
use cs.Constants.{default_c_suppressed_categories, default_kernel_suppressed_categories}
use cs.Nolint.{
  Suppressions, Request, suppress, unknown, ignore, request, add_line, fulfil, nolint,
  suppressed_line, parse_matched, parse_nolint_suppressions, is_error_suppressed_by_nolint,
  suppress_all, is_found, search_c_file, search_kernel_file, process_global_suppressions,
}

-- A request suppresses this category.
abbrev pub covers : Request → Text → Bool
covers (suppress none) category = true
covers (suppress (some c)) category = c == category
covers (unknown c) category = false
covers ignore category = false

fulfil-suppresses :
    (r : Request) (line n l : ℕ) (s : Suppressions) (category : Text)
    → is_error_suppressed_by_nolint category l (fulfil r line n s).0
      ≡ (is_error_suppressed_by_nolint category l s || (l == line && covers r category))
unfolding fulfil is_error_suppressed_by_nolint add_line contains option_beq
fulfil-suppresses (suppress none) line n l s category = simp lookup_or-update (ground arith)
fulfil-suppresses (suppress (some c)) line n l s category = simp lookup_or-update (ground arith)
fulfil-suppresses _ line n l s category = ground arith

-- What a NOLINT comment on a line suppresses: the line that it names, and the category.
abbrev pub comment_covers : Option Found → ℕ → ℕ → Text → Bool
comment_covers none linenum l category = false
comment_covers (some matched) linenum l category =
    l == suppressed_line matched linenum && covers (request (group_of matched 2)) category

matched-suppresses :
    (o : Option Found) (linenum l : ℕ) (s : Suppressions) (category : Text)
    → is_error_suppressed_by_nolint category l (parse_matched o linenum s).0
      ≡ (is_error_suppressed_by_nolint category l s || comment_covers o linenum l category)
unfolding parse_matched
matched-suppresses none linenum l s category = ground arith
matched-suppresses (some m) linenum l s category =
    fulfil-suppresses (request (group_of m 2)) (suppressed_line m linenum) linenum l s category

-- After a line is parsed, an error is suppressed exactly if it was before, or if the line's NOLINT
-- comment covers its category and speaks of its line.
pub parse_nolint_suppressions_effect :
    (raw_line : Text) (linenum l : ℕ) (s : Suppressions) (category : Text)
    → is_error_suppressed_by_nolint category l (parse_nolint_suppressions raw_line linenum s).0 ≡ (
        is_error_suppressed_by_nolint category l s
        || comment_covers (search_in nolint raw_line) linenum l category)
unfolding parse_nolint_suppressions
parse_nolint_suppressions_effect raw_line linenum l s category =
    matched-suppresses (search_in nolint raw_line) linenum l s category

suppress_all-everywhere :
    (cs : List Text) (l : ℕ) (s : Suppressions) (category : Text)
    → is_error_suppressed_by_nolint category l (suppress_all cs s)
      ≡ (is_error_suppressed_by_nolint category l s || contains cs category)
unfolding suppress_all is_error_suppressed_by_nolint contains
suppress_all-everywhere [] l s category = ground arith
suppress_all-everywhere (c ∷ cs) l s category = ground (
  arith,
  ==_iff c category,
  ==_iff category c,
  lookup_or-update false c category (λ (_ : Bool). true) s.everywhere,
  suppress_all-everywhere cs l (record s { everywhere = update false c (λ _. true) s.everywhere })
      category,
)

abbrev pub any_line : (Text → Bool) → List Text → Bool
any_line p [] = false
any_line p (t ∷ ts) = p t || any_line p ts

suppress_if : Bool → List Text → Suppressions → Suppressions
suppress_if b cs s = if b then suppress_all cs s else s

suppress_if-suppresses :
    (b : Bool) (cs : List Text) (l : ℕ) (s : Suppressions) (category : Text)
    → is_error_suppressed_by_nolint category l (suppress_if b cs s)
      ≡ (is_error_suppressed_by_nolint category l s || (b && contains cs category))
unfolding suppress_if
suppress_if-suppresses true cs l s category = suppress_all-everywhere cs l s category
suppress_if-suppresses false cs l s category = ground arith

-- After the lines of a file are processed, an error is suppressed exactly if it was before, or if
-- some line marks a C file and its category is one that is off for C files, or some line marks a
-- kernel file and its category is one that is off for those.
pub process_global_suppressions_effect :
    (lines : List Text) (l : ℕ) (s : Suppressions) (category : Text)
    → is_error_suppressed_by_nolint category l (process_global_suppressions lines s) ≡ (
        is_error_suppressed_by_nolint category l s
        || (any_line (is_found search_c_file) lines
              && contains default_c_suppressed_categories category
            || any_line (is_found search_kernel_file) lines
              && contains default_kernel_suppressed_categories category))
unfolding process_global_suppressions suppress_if
process_global_suppressions_effect [] l s category = ground arith
process_global_suppressions_effect (line ∷ rest) l s category =
    let c = is_found search_c_file line in
    let k = is_found search_kernel_file line in
    let for_c = suppress_if c default_c_suppressed_categories s in
    let next = suppress_if k default_kernel_suppressed_categories for_c in
    ground (
      arith,
      suppress_if-suppresses c default_c_suppressed_categories l s category,
      suppress_if-suppresses k default_kernel_suppressed_categories l for_c category,
      process_global_suppressions_effect rest l next category,
    )
