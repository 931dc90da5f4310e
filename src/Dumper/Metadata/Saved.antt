-- ===== src/Dumper/Metadata/Saved.antt =====
-- `SaveMetaData` between two disks whose metadata calls answer as documented.
use virtual_disks.Base.{
  ℕ, ◌<◌, ◌≡◌, refl, sym, ap, ◌∙◌, ◌⊎◌, inl, inr, subst, true, false, Option, none, some, List, [],
  ◌∷◌, ◌++◌, length, replicate, append-nil, append_assoc, Bool-cases, if◌then◌else◌,
}
use virtual_disks.Base.Bytes.{Byte}
use mathlib.Core.List.{Mem, mem-cons}
use virtual_disks.Vddk.{World}
use virtual_disks.Effects.{Prog, Machine, run, Ensures, Ensures-bind, Ensures-weaken}
use virtual_disks.Disk.Handle.{DiskConnectHandle}
use virtual_disks.Disk.Methods.{get_metadata_keys, read_metadata, write_metadata}
use virtual_disks.Dumper.Types.{VadpDumper, DumpError}
use virtual_disks.Dumper.Metadata.{
  null_term_to_strings, is_blank, save_key, save_keys, save_between, save_meta_data,
}
use virtual_disks.Dumper.Metadata.Strings.{NoNulls, joined, null_term_to_strings-joined}
use virtual_disks.Dumper.Metadata.Calls.{
  Tables, IsMetadata, IsAsked, with_written, listing, IsFetched, ask_value, fetch_value, put_value,
  ask_keys, fetch_keys,
}

-- The entries of the keys that are not blank.
abbrev pub entries : List (List Byte) → (List Byte → List Byte) → List (List Byte × List Byte)
entries [] value = []
entries (key ∷ keys) value =
    let rest = entries keys value in if is_blank key then rest else (key, value key) ∷ rest

-- The keys that are not blank are the source's.
abbrev AreKnown : List (List Byte) → List (List Byte) → Type 0
AreKnown [] known = Unit
AreKnown (key ∷ keys) known = ((is_blank key ≡ true) ⊎ Mem key known) × AreKnown keys known

all_known :
    (keys known : List (List Byte))
    → ((k : List Byte) → Mem k keys → Mem k known)
    → AreKnown keys known
all_known [] known into = tt
all_known (k ∷ keys) known into = (
  inr (into k (mem-cons.1 ∣ inl refl ∣₁)),
  all_known keys known (λ j m. into j (mem-cons.1 ∣ inr m ∣₁)),
)

-- The zero byte behind all is one more, empty key, which is blank.
one_empty_more :
    (keys : List (List Byte))
    → (joined keys (0 ∷ []) ≡ joined (keys ++ [] ∷ []) [])
      × (NoNulls keys → NoNulls (keys ++ [] ∷ []))
      × ((known : List (List Byte)) → AreKnown keys known → AreKnown (keys ++ [] ∷ []) known)
      × ((value : List Byte → List Byte) → entries (keys ++ [] ∷ []) value ≡ entries keys value)
unfolding is_blank
one_empty_more [] = (refl, (λ h. (tt, tt)), (λ known h. (inl refl, tt)), λ value. refl)
one_empty_more (k ∷ keys) =
    let (e, n, a, same) = one_empty_more keys in
    (
      ap (λ b. k ++ 0 ∷ b) e,
      (λ h. (h.0, n h.1)),
      (λ known h. (h.0, a known h.1)),
      λ value. ap (λ es. if is_blank k then es else (k, value k) ∷ es) (same value),
    )

module _ {W : World} (r w : DiskConnectHandle) (view : W.State → Tables)
    (M : IsMetadata W r.dli w.dli view) where
  save_key-saves :
      (s : Machine W) (key : List Byte) (n : ℕ) (rest : ℕ → Prog (Option DumpError))
      (Q : Option DumpError → Machine W → Type 0)
      → Mem key (view s.lib).keys
      → ((m : ℕ) (u : Machine W)
          → view u.lib ≡ with_written (view s.lib) ((key, (view s.lib).value key) ∷ [])
          → Ensures (run (rest m) u) Q)
      → Ensures (run (save_key r w key n rest) s) Q
  unfolding save_key run
  save_key-saves s key n rest Q known goes_on =
      let v = view s.lib in
      Ensures-bind (read_metadata r key [] 0 (some n)) _ s
        (λ f t. IsAsked (length (v.value key)) f × (view t.lib ≡ v)) Q
        (ask_value r w view M s key n known)
        (λ f t (asked, kept).
          rw (asked.failed, asked.small, asked.required)
            (Ensures-bind
              (read_metadata r key (replicate (length (v.value key)) 0) (length (v.value key)) none)
              _ t (IsFetched view v (v.value key)) Q (fetch_value r w view M t v key kept known)
              (λ g u fetched. rw fetched.clean (
                Ensures-bind (write_metadata w key g.buf) _ u
                  (λ e x. (e ≡ none) × (view x.lib ≡ with_written (view u.lib) ((key, g.buf) ∷ [])))
                  Q
                  (put_value r w view M u key g.buf
                    (subst (λ b. 0 < length b) (sym fetched.buf) (M.value_some s.lib key known)))
                  (λ e x (clean, written). rw clean (
                    goes_on (length (v.value key)) x
                      (written ∙ rw (fetched.kept, fetched.buf) refl)))))))

  save_keys-saves :
      (keys : List (List Byte)) (n : ℕ) (s : Machine W)
      → AreKnown keys (view s.lib).keys
      → Ensures (run (save_keys r w keys n) s) (λ e t.
        (e ≡ none) × (view t.lib ≡ with_written (view s.lib) (entries keys (view s.lib).value)))
  unfolding save_keys run
  save_keys-saves [] n s known =
      (refl, ap (λ es. record (view s.lib) { written = es }) (sym (append-nil _)))
  save_keys-saves (key ∷ keys) n s (known, others) = elim (Bool-cases (is_blank key)) [
    | inl blank ↦ rw blank (save_keys-saves keys n s others)
    | inr filled ↦ rw filled (
        save_key-saves s key n (save_keys r w keys) _ (present filled) (λ m u now.
          Ensures-weaken (run (save_keys r w keys m) u)
            (λ e t.
              (e ≡ none)
              × (view t.lib ≡ with_written (view u.lib) (entries keys (view u.lib).value)))
            _
            (λ e t (clean, all). (
              clean,
              all
                  ∙ (ap (λ v. with_written v (entries keys v.value)) now
                      ∙ ap (λ es. record (view s.lib) { written = es })
                          (append_assoc (view s.lib).written ((key, (view s.lib).value key) ∷ [])
                            (entries keys (view s.lib).value))),
            ))
            (save_keys-saves keys m u (subst (λ v. AreKnown keys v.keys) (sym now) others))))
  ]
    where
      present : is_blank key ≡ false → Mem key (view s.lib).keys
      present filled = elim known [ inl blank ↦ cc (blank, filled) | inr m ↦ m ]

  keys_found : (v : Tables) → NoNulls v.keys → null_term_to_strings (listing v) ≡ v.keys ++ [] ∷ []
  keys_found v clean =
      let more = one_empty_more v.keys in
      ap null_term_to_strings more.0
      ∙ null_term_to_strings-joined (v.keys ++ [] ∷ []) [] (more.1 clean) tt

  save_between-saves :
      (s : Machine W)
      → NoNulls (view s.lib).keys
      → Ensures (run (save_between r w) s) (λ e t.
        (e ≡ none)
        × (view t.lib ≡ with_written (view s.lib) (entries (view s.lib).keys (view s.lib).value)))
  unfolding save_between run
  save_between-saves s no_null =
      let v = view s.lib in
      let more = one_empty_more v.keys in
      Ensures-bind (get_metadata_keys r [] 0 (some 0)) _ s
        (λ f t. IsAsked (length (listing v)) f × (view t.lib ≡ v)) _ (ask_keys r w view M s 0)
        (λ f t (asked, kept).
          rw (asked.failed, asked.small, asked.required)
            (Ensures-bind
              (get_metadata_keys r (replicate (length (listing v)) 0) (length (listing v)) none) _ t
              (IsFetched view v (listing v)) _ (fetch_keys r w view M t v kept)
              (λ g u fetched.
                rw (fetched.clean, fetched.buf, keys_found v no_null)
                  (Ensures-weaken (run (save_keys r w (v.keys ++ [] ∷ []) (length (listing v))) u)
                    (λ e t.
                      (e ≡ none)
                      × (view t.lib
                          ≡ with_written (view u.lib)
                              (entries (v.keys ++ [] ∷ []) (view u.lib).value)))
                    _
                    (λ e t (clean, all). (
                      clean,
                      all
                          ∙ ap (λ x. with_written x (entries (v.keys ++ [] ∷ []) x.value))
                              fetched.kept
                          ∙ ap (with_written v) (more.3 v.value),
                    ))
                    (save_keys-saves (v.keys ++ [] ∷ []) (length (listing v)) u (
                      subst (λ x. AreKnown (v.keys ++ [] ∷ []) x.keys) (sym fetched.kept)
                        (more.2 v.keys (all_known v.keys v.keys (λ k m. m)))))))))

  -- Between two open disks whose metadata calls answer as documented and whose keys have no zero
  -- byte, `SaveMetaData` ends without an error, and has written to the target, in their order, the
  -- entries of the source whose keys are not blank, each with its value, and nothing else.
  pub save_meta_data-saves :
      (d : VadpDumper) (s : Machine W)
      → d.read_handle ≡ some r
      → d.write_handle ≡ some w
      → NoNulls (view s.lib).keys
      → Ensures (run (save_meta_data d) s) (λ e t.
        (e ≡ none)
        × (view t.lib ≡ with_written (view s.lib) (entries (view s.lib).keys (view s.lib).value)))
  unfolding save_meta_data
  save_meta_data-saves d s read write no_null = rw (read, write) (save_between-saves s no_null)
