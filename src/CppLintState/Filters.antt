-- ===== src/CppLintState/Filters.antt =====
-- Which filter lists are accepted, and that a backup brings the filters back.
use cs.Base.{
  ◌≡◌, ◌↔◌, refl, true, Bool-cases, inl, inr, Option, none, List, [], ◌∷◌, ◌++◌, Text, All, arith,
  split, starts_with,
}
use cs.CppLintState.{
  CppLintState, is_signed, first_unsigned, clean_filters, value_error, add_filters, set_filters,
  backup_filters, restore_filters,
}

abbrev pub IsSigned : Text → Type 0
IsSigned filt = is_signed filt ≡ true

pub first_unsigned_iff : (l : List Text) → (first_unsigned l ≡ none) ↔ All IsSigned l
unfolding first_unsigned starts_with
first_unsigned_iff [] = ((λ _. tt), (λ _. refl))
first_unsigned_iff (f ∷ l) = elim (Bool-cases (is_signed f)) [
  | inl e ↦ rw e ((λ h. (refl, (first_unsigned_iff l).0 h)), (λ h. (first_unsigned_iff l).1 h.1))
  | inr e ↦ rw e ((λ h. cc), (λ h. cc (h.0)))
]

value_error_iff : (o : Option Text) → (value_error o ≡ none) ↔ (o ≡ none)
value_error_iff o = ground arith

-- `add_filters` raises no error exactly when every filter, those that were there and the new ones,
-- begins with a plus or a minus sign; and whether it raises one or not, the new filters stand
-- behind the old ones and nothing else is changed.
pub add_filters_effect :
    (filters : Text) (s : CppLintState)
    → let r = add_filters filters s in
      ((r.0 ≡ none) ↔ All IsSigned (s.filters ++ clean_filters (split b',' filters)))
      × (r.1 ≡ record s { filters = s.filters ++ clean_filters (split b',' filters) })
unfolding add_filters
add_filters_effect filters s =
    let (to, from) = first_unsigned_iff (s.filters ++ clean_filters (split b',' filters)) in
    let (raises, back) =
      value_error_iff (first_unsigned (s.filters ++ clean_filters (split b',' filters))) in
    ((λ h. to (raises h), λ h. back (from h)), refl)

-- Settings made on the command line or in a configuration file.
pub data Change : Type 0 where
  add : Text → Change
  put : Text → Change

unfoldable pub change : List Change → CppLintState → CppLintState
change [] s = s
change (add f ∷ cs) s = change cs (add_filters f s).1
change (put f ∷ cs) s = change cs (set_filters f s).1

change-keeps :
    (cs : List Change) (s : CppLintState) → (change cs s).filters_backup ≡ s.filters_backup
unfolding change add_filters set_filters
change-keeps [] s = refl
change-keeps (add f ∷ cs) s = change-keeps cs _
change-keeps (put f ∷ cs) s = change-keeps cs _

-- Whatever filters are added or set after a backup, accepted or refused, restoring brings back the
-- filters that the backup saw.
pub restore-backup :
    (cs : List Change) (s : CppLintState)
    → (restore_filters (change cs (backup_filters s))).filters ≡ s.filters
unfolding restore_filters backup_filters
restore-backup cs s = change-keeps cs _
