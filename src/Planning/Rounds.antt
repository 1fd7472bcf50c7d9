-- ===== src/Planning/Rounds.antt =====
-- planning/validator.py: the topological sort of `_has_cycle` ends within as many rounds as there
-- are slices.
use code_migrator.Base.{
  nat_eq, list_eq, ℕ, zero, suc, ◌+◌, ◌-◌, ◌≤◌, ◌≡◌, refl, sym, ap, ◌∙◌, ◌⊎◌, true, false, not,
  ◌&&◌, List, [], ◌∷◌, ◌++◌, arith, ◌==◌, if◌then◌else◌, inl, inr, Bool-cases, keep, length,
  length-append, Text, contains, get, put, nat_beq,
}
use code_migrator.Base.Texts.{list_beq_iff}
use code_migrator.Base.Loops.{unique, sorted, insert_text, text_leb}
use code_migrator.Planning.Proposal.{PlanEdgeProposal, PlanProposal, refs_of}
use code_migrator.Planning.Graph.{
  children, degree, constant, Graph, add_edge, add_edges, relax, visit, has_cycle,
}

-- One for a slice that something still holds back.
abbrev mark : ℕ → ℕ
mark zero = 0
mark (suc n) = 1

-- How many slices are held back.
abbrev held : List (Text × ℕ) → ℕ
held [] = 0
held ((r, n) ∷ d) = mark n + held d

held-put :
    (k : Text) (v : ℕ) (d : List (Text × ℕ))
    → held (put k v d) + mark (degree d k) ≡ held d + mark v
unfolding put get
held-put k v [] = omega arith
held-put k v ((j, n) ∷ d) = elim (Bool-cases (j == k)) [
  | inl e ↦ rw e (omega arith)
  | inr e ↦ rw e (omega (arith, held-put k v d))
]

mark-pred : (d : ℕ) → mark d ≡ (if nat_beq d 1 then 1 else 0) + mark (d - 1)
mark-pred zero = ground arith
mark-pred (suc zero) = ground arith
mark-pred (suc (suc n)) =
    let e : suc (suc n) - 1 ≡ suc n = omega arith in
    let f : nat_beq (suc (suc n)) 1 ≡ false = ground arith in rw (e, f) refl

-- Visiting a slice frees as many as it takes from those held back.
relax-held :
    (cs : List Text) (d : List (Text × ℕ)) → length (relax cs d).1 + held (relax cs d).0 ≡ held d
unfolding relax
relax-held [] d = omega arith
relax-held (c ∷ cs) d =
    let n = degree d c in
    let rest = relax-held cs (put c (n - 1) d) in
    let one_less = held-put c (n - 1) d in
    elim (Bool-cases (nat_beq n 1)) [
      | inl e ↦ let p = rw e at (mark-pred n) in rw e (omega (arith, rest, one_less, p))
      | inr e ↦ let p = rw e at (mark-pred n) in rw e (omega (arith, rest, one_less, p))
    ]

visit-none :
    (adjacency : List (Text × List Text)) (rounds : ℕ) (d : List (Text × ℕ))
    → visit adjacency rounds [] d ≡ 0
unfolding visit
visit-none adjacency zero d = refl
visit-none adjacency (suc rounds) d = refl

-- Where the rounds cover the queue and the slices held back, more rounds visit no more slices.
visit-rounds :
    (adjacency : List (Text × List Text)) (rounds more : ℕ) (queue : List Text)
    (d : List (Text × ℕ))
    → length queue + held d ≤ rounds
    → visit adjacency (rounds + more) queue d ≡ visit adjacency rounds queue d
unfolding visit
visit-rounds adjacency rounds more [] d h =
    visit-none adjacency (rounds + more) d ∙ sym (visit-none adjacency rounds d)
visit-rounds adjacency zero more (r ∷ queue) d h = absurd (omega arith)
visit-rounds adjacency (suc rounds) more (r ∷ queue) d h =
    let next = relax (sorted (children adjacency r)) d in
    let fewer : length (queue ++ next.1) + held next.0 ≤ rounds =
      omega (arith, length-append queue next.1, relax-held (sorted (children adjacency r)) d) in
    let shift : suc rounds + more ≡ suc (rounds + more) = omega arith in
    ap (λ n. visit adjacency n (r ∷ queue) d) shift
    ∙ ap suc (visit-rounds adjacency rounds more (queue ++ next.1) next.0 fewer)

-- The slices of an in-degree table.
abbrev tabled : List (Text × ℕ) → List Text
tabled [] = []
tabled ((r, n) ∷ d) = r ∷ tabled d

-- No slice twice.
abbrev IsDistinct : List Text → Type 0
IsDistinct [] = Unit
IsDistinct (r ∷ rs) = (contains r rs ≡ false) × IsDistinct rs

unique-IsDistinct : (xs : List Text) → IsDistinct (unique xs)
unfolding unique
unique-IsDistinct [] = tt
unique-IsDistinct (x ∷ xs) = elim (Bool-cases (contains x (unique xs))) [
  | inl e ↦ rw e (unique-IsDistinct xs)
  | inr e ↦ rw e (e, unique-IsDistinct xs)
]

tabled-constant : (rs : List Text) → tabled (constant 0 rs) ≡ rs
tabled-constant [] = refl
tabled-constant (r ∷ rs) = ap (λ l. r ∷ l) (tabled-constant rs)

tabled-put :
    (k : Text) (v : ℕ) (d : List (Text × ℕ))
    → contains k (tabled d) ≡ true
    → tabled (put k v d) ≡ tabled d
unfolding put contains
tabled-put k v [] h = absurd (ground arith)
tabled-put k v ((j, n) ∷ d) h = elim (Bool-cases (j == k)) [
  | inl e ↦ rw e (ap (λ x. x ∷ tabled d) (sym ((list_beq_iff j k).0 e)))
  | inr e ↦ rw e (ap (λ l. j ∷ l) (tabled-put k v d (ground arith)))
]

-- The table keeps its slices while edges are added.
tabled-add_edge :
    (refs : List Text) (g : Graph) (edge : PlanEdgeProposal)
    → tabled g.1 ≡ refs
    → tabled (add_edge refs g edge).1 ≡ refs
unfolding add_edge
tabled-add_edge refs (adjacency, indegree) edge h =
    elim (Bool-cases (
      contains edge.from_ refs
      && contains edge.to refs
      && not (contains edge.to (children adjacency edge.from_)))) [
        | inl e ↦
            let member : contains edge.to (tabled indegree) ≡ true = rw h (ground arith) in
            rw (e, add_edge)
              (tabled-put edge.to (suc (degree indegree edge.to)) indegree member ∙ h)
        | inr e ↦ rw (e, add_edge) h
      ]

tabled-add_edges :
    (refs : List Text) (g : Graph) (edges : List PlanEdgeProposal)
    → tabled g.1 ≡ refs
    → tabled (add_edges refs g edges).1 ≡ refs
unfolding add_edges
tabled-add_edges refs g [] h = h
tabled-add_edges refs g (edge ∷ edges) h =
    tabled-add_edges refs (add_edge refs g edge) edges (tabled-add_edge refs g edge h)

free_others :
    (r : Text) (n : ℕ) (d : List (Text × ℕ)) (rs : List Text)
    → contains r rs ≡ false
    → keep (λ s. nat_beq (degree ((r, n) ∷ d) s) 0) rs ≡ keep (λ s. nat_beq (degree d s) 0) rs
unfolding contains get
free_others r n d [] h = refl
free_others r n d (s ∷ rs) h =
    let other : (r == s) ≡ false = ground (arith, list_beq_iff s r, list_beq_iff r s) in
    rw (other, free_others r n d rs (ground arith)) refl

zero_or_held :
    (n : ℕ) → ((nat_beq n 0 ≡ true) × (mark n ≡ 0)) ⊎ ((nat_beq n 0 ≡ false) × (mark n ≡ 1))
zero_or_held zero = inl (ground arith, refl)
zero_or_held (suc n) = inr (ground arith, refl)

free_or_held :
    (d : List (Text × ℕ))
    → IsDistinct (tabled d)
    → length (keep (λ r. nat_beq (degree d r) 0) (tabled d)) + held d ≡ length (tabled d)
unfolding get
free_or_held [] h = omega arith
free_or_held ((r, n) ∷ d) h =
    let self : (r == r) ≡ true = (list_beq_iff r r).1 refl in
    let rest = free_or_held d h.1 in
    rw (free_others r n d (tabled d) h.0, self)
      (elim (zero_or_held n) [
        | inl e ↦ rw (e.0, e.1) (omega (arith, rest))
        | inr e ↦ rw (e.0, e.1) (omega (arith, rest))
      ])

length-insert_text : (t : Text) (us : List Text) → length (insert_text t us) ≡ suc (length us)
length-insert_text t [] = refl
length-insert_text t (u ∷ us) = elim (Bool-cases (text_leb t u)) [
  | inl e ↦ rw e refl
  | inr e ↦ rw e (ap suc (length-insert_text t us))
]

length-sorted : (ts : List Text) → length (sorted ts) ≡ length ts
unfolding sorted
length-sorted [] = refl
length-sorted (t ∷ ts) = length-insert_text t (sorted ts) ∙ ap suc (length-sorted ts)

-- The graph of a proposal, and the queue that the sort starts from.
abbrev pub refs_in : PlanProposal → List Text
refs_in proposal = unique (refs_of proposal.slices)

abbrev pub graph_of : PlanProposal → Graph
graph_of proposal =
    add_edges (refs_in proposal) (constant [] (refs_in proposal), constant 0 (refs_in proposal))
      proposal.edges

abbrev pub start_of : PlanProposal → List Text
start_of proposal =
    sorted (keep (λ r. nat_beq (degree (graph_of proposal).1 r) 0) (refs_in proposal))

-- The rounds that `has_cycle` gives the topological sort, one for each slice, are enough: with any
-- more rounds it visits as many slices, and `has_cycle` answers whether the slices that it visits
-- are fewer than all.
pub has_cycle-rounds :
    (proposal : PlanProposal) (more : ℕ)
    → has_cycle proposal
      ≡ not (
          nat_beq
            (visit
              (graph_of proposal).0
              (length (refs_in proposal) + more)
              (start_of proposal)
              (graph_of proposal).1)
            (length (refs_in proposal)))
unfolding has_cycle
has_cycle-rounds proposal more =
    let refs = refs_in proposal in
    let g = graph_of proposal in
    let table : tabled g.1 ≡ refs =
      tabled-add_edges refs (constant [] refs, constant 0 refs) proposal.edges
        (tabled-constant refs) in
    let distinct : IsDistinct (tabled g.1) =
      rw table (unique-IsDistinct (refs_of proposal.slices)) in
    let all = rw table at (free_or_held g.1 distinct) in
    let size = length-sorted (keep (λ r. nat_beq (degree g.1 r) 0) refs) in
    let rounds =
      visit-rounds g.0 (length refs) more (start_of proposal) g.1 (omega (arith, all, size)) in
    ap (λ n. not (nat_beq n (length refs))) (sym rounds)
