-- ===== src/Sync/State/Manifest/Lookup.antt =====
-- What `contains` finds in a manifest.
use Prim.Native.Nat.Ordering.{lt}
use rs_converge.Prelude.{
  ◌≡◌, ◌≢◌, refl, ◌↔◌, ◌⊎◌, inl, inr, Option-cases, true, some, List, [], ◌∷◌, arith, Has, Has-All,
  Has-get_elem, ap, sym, ◌∙◌,
}
use mathlib.Core.Path.{subst}
use rs_converge.Order.{Ord, Ordering-cases}
use rs_converge.Order.Lex.{Bytes, cmp_bytes, bytes_ord}
use rs_converge.BTreeMap.{Map, Above, IsSorted}
use rs_converge.BTreeMap.Sort.{FromOn, Increases}
use rs_converge.BTreeMap.Slices.{Slices}
use rs_converge.Value.{is_eq}
use rs_converge.Sync.State.{SyncKey}
use rs_converge.Sync.State.Key.{sync_key_ord}
use rs_converge.Sync.State.Manifest.{
  SyncManifest, dedup_after, dedup_by_key, new_manifest, digest_matches, contains,
  new_manifest-IsSorted,
}

module _ {K V : Type 0} ⦃o : Ord K⦄ where
  FromOn-Above : (k : K) (m : Map K V) → Above k m → FromOn k m
  FromOn-Above k [] h = tt
  FromOn-Above k (e ∷ m) (p, h) = (λ q. cc, FromOn-Above k m h)

  Increases-IsSorted : (m : Map K V) → IsSorted m → Increases m
  Increases-IsSorted [] h = tt
  Increases-IsSorted ((k, v) ∷ m) (p, h) = (FromOn-Above k m p, Increases-IsSorted m h)

  no_self : (j k : K) (v : V) (m : Map K V) → j ≡ k → Above j m → Has (k, v) m → ⊥
  no_self j k v m same above h =
      let less = Has-All (λ e. o.cmp j e.0 ≡ lt) (k, v) m above h in cc (o.cmp_refl k)

  -- A sorted map has one value for a key.
  Has-unique : (k : K) (v w : V) (m : Map K V) → IsSorted m → Has (k, v) m → Has (k, w) m → v ≡ w
  Has-unique k v w [] s a b = absurd a
  Has-unique k v w ((j, u) ∷ m) (above, s) (inl p) (inl q) = ap (λ e. e.1) (p ∙ sym q)
  Has-unique k v w ((j, u) ∷ m) (above, s) (inl p) (inr b) =
      absurd (no_self j k w m (sym (ap (λ e. e.0) p)) above b)
  Has-unique k v w ((j, u) ∷ m) (above, s) (inr a) (inl q) =
      absurd (no_self j k v m (sym (ap (λ e. e.0) q)) above a)
  Has-unique k v w ((j, u) ∷ m) (above, s) (inr a) (inr b) = Has-unique k v w m s a b

  Has-cons :
      (e f : K × V) (xs ys : List (K × V)) → (Has e xs → Has e ys) → Has e (f ∷ xs) → Has e (f ∷ ys)
  Has-cons e f xs ys g (inl p) = inl p
  Has-cons e f xs ys g (inr m) = inr (g m)

  -- `dedup_by` drops entries.
  Has-dedup_after : (k : K) (es : List (K × V)) (e : K × V) → Has e (dedup_after k es) → Has e es
  unfolding dedup_after
  Has-dedup_after k [] e h = h
  Has-dedup_after k (f ∷ fs) e h = elim (Ordering-cases (o.cmp k f.0)) [
    | inl q ↦ Has-cons e f _ _ (Has-dedup_after f.0 fs e) (rw (dedup_after, q) at h)
    | inr (inl q) ↦ inr (Has-dedup_after k fs e (rw (dedup_after, q) at h))
    | inr (inr q) ↦ Has-cons e f _ _ (Has-dedup_after f.0 fs e) (rw (dedup_after, q) at h)
  ]

  pub Has-dedup_by_key : (es : List (K × V)) (e : K × V) → Has e (dedup_by_key es) → Has e es
  unfolding dedup_by_key
  Has-dedup_by_key [] e h = h
  Has-dedup_by_key (f ∷ fs) e h = Has-cons e f _ _ (Has-dedup_after f.0 fs e) h

  -- Some entry has the key.
  abbrev pub HasKey : K → List (K × V) → Type 0
  HasKey k es = (v : V) × Has (k, v) es

  HasKey-cons :
      (k : K) (f : K × V) (es : List (K × V)) → (k ≡ f.0) ⊎ HasKey k es → HasKey k (f ∷ es)
  HasKey-cons k f es (inl e) = (f.1, inl (λ i. (e i, f.1)))
  HasKey-cons k f es (inr (v, m)) = (v, inr m)

  HasKey-step :
      (k : K) (v : V) (f : K × V) (es ds : List (K × V))
      → (Has (k, v) es → (k ≡ f.0) ⊎ HasKey k ds)
      → Has (k, v) (f ∷ es)
      → HasKey k (f ∷ ds)
  HasKey-step k v f es ds g (inl p) = (v, inl p)
  HasKey-step k v f es ds g (inr m) = HasKey-cons k f ds (g m)

  HasKey-skip :
      (j k : K) (v : V) (f : K × V) (es ds : List (K × V))
      → j ≡ f.0
      → (Has (k, v) es → (k ≡ j) ⊎ HasKey k ds)
      → Has (k, v) (f ∷ es)
      → (k ≡ j) ⊎ HasKey k ds
  HasKey-skip j k v f es ds e g (inl p) = inl (ap (λ x. x.0) p ∙ sym e)
  HasKey-skip j k v f es ds e g (inr m) = g m

  -- It keeps an entry for each key.
  HasKey-dedup_after :
      (j k : K) (v : V) (es : List (K × V)) → Has (k, v) es → (k ≡ j) ⊎ HasKey k (dedup_after j es)
  unfolding dedup_after
  HasKey-dedup_after j k v [] h = absurd h
  HasKey-dedup_after j k v (f ∷ fs) h = elim (Ordering-cases (o.cmp j f.0)) [
    | inl q ↦
        rw (dedup_after, q)
          (inr (HasKey-step k v f fs (dedup_after f.0 fs) (HasKey-dedup_after f.0 k v fs) h))
    | inr (inl q) ↦
        rw (dedup_after, q)
          (HasKey-skip j k v f fs (dedup_after j fs) (o.eq_of_cmp j f.0 q)
            (HasKey-dedup_after j k v fs) h)
    | inr (inr q) ↦
        rw (dedup_after, q)
          (inr (HasKey-step k v f fs (dedup_after f.0 fs) (HasKey-dedup_after f.0 k v fs) h))
  ]

  pub HasKey-dedup_by_key :
      (k : K) (v : V) (es : List (K × V)) → Has (k, v) es → HasKey k (dedup_by_key es)
  unfolding dedup_by_key
  HasKey-dedup_by_key k v [] h = absurd h
  HasKey-dedup_by_key k v (f ∷ fs) h =
      HasKey-step k v f fs (dedup_after f.0 fs) (HasKey-dedup_after f.0 k v fs) h

module _ (slices : Slices) (manifest : SyncManifest) (key : SyncKey) (digest : Bytes) where
  digest_matches-found : (v : Bytes) → (digest_matches (some (key, v)) digest ≡ true) → v ≡ digest
  digest_matches-found v h =
      bytes_ord.eq_of_cmp v digest (ground (arith, Ordering-cases (cmp_bytes v digest)))

  -- In a manifest in the order of its keys, `contains` finds exactly the entries.
  pub contains-Has :
      IsSorted manifest → (contains slices manifest key digest ≡ true) ↔ Has (key, digest) manifest
  unfolding contains
  contains-Has s =
      let order = Increases-IsSorted manifest s in
      elim (Option-cases (slices.binary_search key manifest)) [
        | inl q ↦ (
          λ h. absurd (ground (arith, q)),
          λ h. absurd (
              Has-All (λ e. e.0 ≢ key) (key, digest) manifest (slices.missed key manifest order q) h
                refl),
        )
        | inr (i, q) ↦
            (let (v, e) = slices.found key manifest i order q in
              let there = Has-get_elem manifest i (key, v) e in
              let shown : contains slices manifest key digest ≡ is_eq (cmp_bytes v digest) =
                rw (contains, q, e) refl in
              (
                λ h.
                    subst (λ d. Has (key, d) manifest) (digest_matches-found v (sym shown ∙ h))
                      there,
                λ h.
                    shown
                    ∙ ground (
                      arith,
                      Has-unique key v digest manifest s there h,
                      bytes_ord.cmp_refl digest,
                    ),
              ))
      ]

-- A manifest made by `new` contains a key with a digest exactly if the list has this entry, when
-- the list has one digest for the key: of several, the sort leaves open which one stays.
pub contains-new_manifest :
    (slices : Slices) (entries : List (SyncKey × Bytes)) (key : SyncKey) (digest : Bytes)
    → ((a b : Bytes) → Has (key, a) entries → Has (key, b) entries → a ≡ b)
    → (contains slices (new_manifest slices entries) key digest ≡ true) ↔ Has (key, digest) entries
unfolding new_manifest
contains-new_manifest slices entries key digest one =
    let order = slices.sort_unstable entries in
    let manifest = new_manifest slices entries in
    let listed : (d : Bytes) → Has (key, d) manifest → Has (key, d) entries =
      λ d m. (slices.kept entries (key, d)).0 (Has-dedup_by_key order (key, d) m) in
    let (there, back) =
      contains-Has slices manifest key digest (new_manifest-IsSorted slices entries) in
    (
      λ h. listed digest (there h),
      λ h.
          let (d, m) =
            HasKey-dedup_by_key key digest order ((slices.kept entries (key, digest)).1 h) in
          back (subst (λ x. Has (key, x) manifest) (one d digest (listed d m) h) m),
    )
