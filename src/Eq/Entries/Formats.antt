-- ===== src/Eq/Entries/Formats.antt =====
-- The formats of the completion queue entries of include/fi_eq.h, from the poorest to the richest.
use xlibfabric.Base.{ℕ, ◌+◌, ◌≡◌, refl, ap, ◌∙◌, List, [], ◌∷◌, ◌++◌}
use xlibfabric.Abi.{Model, Kind, Members, kinds, offsets, end_of, align_up}
use xlibfabric.Eq.Entries.{
  CqField, fi_cq_entry_members, fi_cq_msg_entry_members, fi_cq_data_entry_members,
  fi_cq_tagged_entry_members, fi_cq_err_entry_members,
}

pub data CqEntry : Type 0 where
  entry msg_entry data_entry tagged_entry err_entry : CqEntry

unfoldable pub cq_members : Model → CqEntry → Members CqField
cq_members m entry = fi_cq_entry_members m
cq_members m msg_entry = fi_cq_msg_entry_members m
cq_members m data_entry = fi_cq_data_entry_members m
cq_members m tagged_entry = fi_cq_tagged_entry_members m
cq_members m err_entry = fi_cq_err_entry_members m

-- The next richer format; the error entry is the richest.
abbrev pub richer : CqEntry → CqEntry
richer entry = msg_entry
richer msg_entry = data_entry
richer data_entry = tagged_entry
richer tagged_entry = err_entry
richer err_entry = err_entry

offsets-append :
    (start : ℕ) (ks ls : List Kind)
    → offsets start (ks ++ ls) ≡ offsets start ks ++ offsets (end_of start ks) ls
unfolding offsets end_of
offsets-append start [] ls = refl
offsets-append start (k ∷ ks) ls =
    ap (λ os. align_up k.log_align start ∷ os)
      (offsets-append (align_up k.log_align start + k.size) ks ls)

kinds-append : {F : Type 0} (ms ns : Members F) → kinds (ms ++ ns) ≡ kinds ms ++ kinds ns
kinds-append [] ns = refl
kinds-append (m ∷ ms) ns = ap (λ ks. m.1 ∷ ks) (kinds-append ms ns)

added :
    (m : Model) (f : CqEntry)
    → (more : Members CqField) × (cq_members m (richer f) ≡ cq_members m f ++ more)
unfolding cq_members
added m entry = (_, refl)
added m msg_entry = (_, refl)
added m data_entry = (_, refl)
added m tagged_entry = (_, refl)
added m err_entry = ([], refl)

-- In both data models each format of completion queue entries begins with the fields of the next poorer
-- one, at the same offsets, so that an entry of the richer format can be read as one of the poorer.
pub cq_members-richer :
    (m : Model) (f : CqEntry)
    → (more : Members CqField) × (cq_members m (richer f) ≡ cq_members m f ++ more)
      × (offsets 0 (kinds (cq_members m (richer f)))
          ≡ offsets 0 (kinds (cq_members m f))
            ++ offsets (end_of 0 (kinds (cq_members m f))) (kinds more))
cq_members-richer m f =
    let (more, same) = added m f in
    (
      more,
      same,
      ap (λ ms. offsets 0 (kinds ms)) same
          ∙ ap (offsets 0) (kinds-append (cq_members m f) more)
          ∙ offsets-append 0 (kinds (cq_members m f)) (kinds more),
    )
