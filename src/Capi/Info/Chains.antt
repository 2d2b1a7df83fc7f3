-- ===== src/Capi/Info/Chains.antt =====
-- internal/capi/info.go: chains of nodes in memory, and what the loop of Entries makes of them.
use libfabric_go.Base.{
  if◌then◌else◌, Bool-cases, inl, inr, true, ℕ, zero, suc, ◌≡◌, ◌≢◌, ◌≤◌, Bool, false, some, List,
  [], ◌∷◌, arith, length, ◌==◌, ◌||◌, true, none, ◌∙◌, refl, ap,
}
use libfabric_go.Capi.Info.{FiInfo, Heap, walk, entries, Info}

-- The nodes from `p` to the nil pointer stand at the addresses of the list.
pub data Chain (h : Heap) : ℕ → List ℕ → Type 0 where
  end : Chain h 0 []
  link :
      {p : ℕ} {n : FiInfo} {ps : List ℕ}
      → p ≢ 0
      → h p ≡ some n
      → Chain h n.next ps
      → Chain h p (p ∷ ps)

abbrev pub among : ℕ → List ℕ → Bool
among q [] = false
among q (p ∷ ps) = q == p || among q ps

-- From a chain, the loop with at least as many rounds as the chain has nodes collects exactly them.
pub walk-Chain :
    {h : Heap} {p : ℕ} {ps : List ℕ} (fuel : ℕ)
    → Chain h p ps
    → length ps ≤ fuel
    → walk fuel h p ≡ some ps
unfolding walk
walk-Chain zero end le = ground arith
walk-Chain (suc fuel) end le = ground arith
walk-Chain zero (link ne e c) le = absurd (omega arith)
walk-Chain (suc fuel) (link ne e c) le = ground (arith, walk-Chain fuel c (omega arith))

walk-nil : (fuel : ℕ) (h : Heap) (p : ℕ) → (p == 0) ≡ true → walk fuel h p ≡ some []
unfolding walk
walk-nil zero h p e = ground arith
walk-nil (suc fuel) h p e = ground arith

pub entries-Chain :
    (fuel : ℕ) (i : Info) (h : Heap) (ps : List ℕ)
    → Chain h i.ptr ps
    → length ps ≤ fuel
    → entries fuel i h ≡ some ps
unfolding entries
entries-Chain fuel i h ps l le = ground (arith, walk-Chain fuel l le, walk-nil fuel h i.ptr)

-- Memory in which exactly the nodes `ps` are gone.
unfoldable pub Without : List ℕ → Heap → Heap → Type 0
Without ps h h' = (q : ℕ) → h' q ≡ (if among q ps then none else h q)

-- A chain whose nodes stand in another memory as well is a chain there.
pub Chain-agree :
    {h h' : Heap} {p : ℕ} {ps : List ℕ}
    → Chain h p ps
    → ((q : ℕ) → among q ps ≡ true → h' q ≡ h q)
    → Chain h' p ps
Chain-agree end a = end
Chain-agree {h} {h'} {p} (link {n = n} {ps = ps} ne e c) a =
    link ne (a p (ground arith) ∙ e) (Chain-agree c (λ q m. a q (ground (arith, m))))

pub Chain-nil :
    {h : Heap} {p : ℕ} {ps : List ℕ} (q : ℕ) → Chain h p ps → (p == 0) ≡ true → among q ps ≡ false
Chain-nil q end e = refl
Chain-nil q (link ne n c) e = ground (arith, ne)

-- A node of a chain is in memory.
pub Chain-some :
    {h : Heap} {p : ℕ} {ps : List ℕ} (q : ℕ) → Chain h p ps → among q ps ≡ true → h q ≢ none
Chain-some q end m e = ground arith
Chain-some {h} q (link {p = p} {n = n} ne e c) m x = elim (Bool-cases (q == p)) [
  | inl t ↦ let same : q ≡ p = ground (arith, t) in ground (arith, e, x, ap h same)
  | inr f ↦ Chain-some q c (ground (arith, m, f)) x
]
