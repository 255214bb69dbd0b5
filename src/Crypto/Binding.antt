-- ===== src/Crypto/Binding.antt =====
-- Associated data names one purpose, one record and one list of scopes.
use secretmediabot.Base.{
  ℕ, ◌≡◌, ◌<◌, ◌^◌, refl, sym, ◌∙◌, Bool, true, ◌&&◌, not, List, [], ◌∷◌, ◌++◌, Uuid, Bytes, Text,
  ◌==◌, nat_eq, inl, inr, ◌⊎◌, arith, All, codes, map,
}
use secretmediabot.Crypto.{
  Primitives, Error, Outcome, done, failed, RecordPurpose, is_known_purpose, purpose_text, join,
  scope_texts, associated_data,
}

unfoldable pub lacks : ℕ → Text → Bool
lacks c [] = true
lacks c (x ∷ xs) = not (x == c) && lacks c xs

abbrev Lacks : ℕ → Text → Type 0
Lacks c s = lacks c s ≡ true

-- The text before the first separator, and the one after it.
split_unique :
    (c : ℕ) (a b s t : Text) → Lacks c a → Lacks c b → a ++ c ∷ s ≡ b ++ c ∷ t → (a ≡ b) × (s ≡ t)
unfolding lacks
split_unique c [] [] s t ha hb h = grind arith
split_unique c [] (y ∷ b) s t ha hb h = ground (arith, nat_eq.beq_iff y c)
split_unique c (x ∷ a) [] s t ha hb h = ground (arith, nat_eq.beq_iff x c)
split_unique c (x ∷ a) (y ∷ b) s t ha hb h = ground (arith, split_unique c a b s t)

Lacks-separator : (c : ℕ) (b t : Text) → Lacks c (b ++ c ∷ t) → ⊥
unfolding lacks
Lacks-separator c [] t h = ground (arith, nat_eq.beq_iff c c)
Lacks-separator c (y ∷ b) t h = ground (arith, Lacks-separator c b t)

pub join-injective :
    (c : ℕ) (p q : Text) (ps qs : List Text)
    → All (Lacks c) (p ∷ ps)
    → All (Lacks c) (q ∷ qs)
    → join c (p ∷ ps) ≡ join c (q ∷ qs)
    → (p ≡ q) × (ps ≡ qs)
unfolding join lacks
join-injective c p q [] [] hp hq h = (h, refl)
join-injective c p q [] (r ∷ qs) hp hq h = absurd (Lacks-separator c q _ (rw h at hp.0))
join-injective c p q (r ∷ ps) [] hp hq h = absurd (Lacks-separator c p _ (rw (← h) at hq.0))
join-injective c p q (r ∷ ps) (t ∷ qs) hp hq h =
    let both = split_unique c p q _ _ hp.0 hq.0 h in
    let rest = join-injective c r t ps qs hp.1 hq.1 both.1 in (both.0, grind (arith, rest))

purpose_text-injective :
    (p q : RecordPurpose)
    → is_known_purpose p ≡ true
    → is_known_purpose q ≡ true
    → purpose_text p ≡ purpose_text q
    → p ≡ q
unfolding purpose_text is_known_purpose
purpose_text-injective p q hp hq h = ground arith

purpose_text-Lacks : (p : RecordPurpose) → is_known_purpose p ≡ true → Lacks b':' (purpose_text p)
unfolding purpose_text is_known_purpose lacks
purpose_text-Lacks p h = ground arith

abbrev pub IsUuid : Uuid → Type 0
IsUuid id = id < 2 ^ 128

pub Outcome-cases :
    {A : Type 0} (o : Outcome A) → ((a : A) × (o ≡ done a)) ⊎ ((e : Error) × (o ≡ failed e))
Outcome-cases (done a) = inl (a, refl)
Outcome-cases (failed e) = inr (e, refl)

module _ (prims : Primitives) where
  -- The text of an identifier of 128 bits has no colon and names it.
  pub record Writes : Type 0 where
    pub id_lacks : (u : Uuid) → Lacks b':' (prims.id_text u)
    pub id_injective :
        (u v : Uuid) → IsUuid u → IsUuid v → prims.id_text u ≡ prims.id_text v → u ≡ v

  scope_texts-done :
      (ids : List Uuid) (ts : List Text)
      → scope_texts prims ids ≡ done ts
      → ts ≡ map prims.id_text ids
  unfolding scope_texts
  scope_texts-done [] ts h = ground arith
  scope_texts-done (id ∷ ids) ts h = elim (Outcome-cases (scope_texts prims ids)) [
    | inl (us, some_texts) ↦
        rw (← scope_texts-done ids us some_texts) (ground (arith, h, some_texts))
    | inr (e, none_built) ↦ ground (arith, h, none_built)
  ]

  map-Lacks : Writes → (ids : List Uuid) → All (Lacks b':') (map prims.id_text ids)
  map-Lacks w [] = tt
  map-Lacks w (id ∷ ids) = (w.id_lacks id, map-Lacks w ids)

  map-injective :
      Writes
      → (s t : List Uuid) → All IsUuid s
      → All IsUuid t
      → map prims.id_text s ≡ map prims.id_text t
      → s ≡ t
  map-injective w [] [] hs ht h = refl
  map-injective w [] (v ∷ t) hs ht h = ground arith
  map-injective w (u ∷ s) [] hs ht h = ground arith
  map-injective w (u ∷ s) (v ∷ t) hs ht h =
      ground (arith, w.id_injective u v hs.0 ht.0, map-injective w s t hs.1 ht.1)

  parts : RecordPurpose → Uuid → List Uuid → List Text
  parts p id s = purpose_text p ∷ map prims.id_text (id ∷ s)

  parts-injective :
      (a b x y : Text) (u v : List Text)
      → ◌≡◌ {A = List Text} (a ∷ x ∷ u) (b ∷ y ∷ v)
      → (x ≡ y) × (u ≡ v)
  parts-injective a b x y u v h = (cc, cc)

  -- What is joined.
  associated_data-done :
      (p : RecordPurpose) (id : Uuid) (s : List Uuid) (a : Bytes)
      → associated_data prims p id s ≡ done a
      → (is_known_purpose p ≡ true)
        × (a ≡ join b':' (codes "secretsantabot" ∷ codes "v1" ∷ parts p id s))
  unfolding associated_data parts
  associated_data-done p id s a h = elim (Outcome-cases (scope_texts prims s)) [
    | inl (ts, built) ↦ rw (← scope_texts-done s ts built) (ground (arith, h, built))
    | inr (e, none_built) ↦ ground (arith, h, none_built)
  ]

  -- Where the texts of identifiers have no colon and are distinct, associated data that is built twice with one result was
  -- built for one purpose, one record and one list of scopes.
  pub associated_data-injective :
      (p q : RecordPurpose) (id j : Uuid) (s t : List Uuid) (a : Bytes)
      → Writes
      → All IsUuid (id ∷ s)
      → All IsUuid (j ∷ t)
      → associated_data prims p id s ≡ done a
      → associated_data prims q j t ≡ done a
      → (p ≡ q) × (id ≡ j) × (s ≡ t)
  unfolding parts lacks
  associated_data-injective p q id j s t a w hs ht first second =
      let (known, left) = associated_data-done p id s a first in
      let (known', right) = associated_data-done q j t a second in
      let (_, tail) =
        join-injective b':' (codes "secretsantabot") (codes "secretsantabot")
          (codes "v1" ∷ parts p id s) (codes "v1" ∷ parts q j t)
          (refl, (refl, (purpose_text-Lacks p known, map-Lacks w (id ∷ s))))
          (refl, (refl, (purpose_text-Lacks q known', map-Lacks w (j ∷ t)))) (sym left ∙ right) in
      let (heads, ids) = parts-injective (codes "v1") (codes "v1") _ _ _ _ tail in
      let same = map-injective w (id ∷ s) (j ∷ t) hs ht ids in
      (purpose_text-injective p q known known' heads, ground (arith, same), ground (arith, same))
