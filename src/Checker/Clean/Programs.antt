-- ===== src/Checker/Clean/Programs.antt =====
-- typecheck.cpp: programs none of whose nodes has the poison type of itself.
use mathlib.Core.Path.{subst}
use janguage.Base.{◌≡◌, ◌∙◌, ◌+◌, ◌≢◌, ap, ℕ, zero, suc, List, [], ◌∷◌, negsuc, some, refl, arith}
use janguage.Types.{Kind}
use janguage.Nodes.{Address, builtin, at, Node, Pool, node_at}
use janguage.Checker.{poison, node_of, builtin_nodes}
use janguage.Checker.Clean.{PlainNode, Plain}

-- Each node is plain, and none is the poison type.
abbrev pub IsPlain : List Node → Type 0
IsPlain [] = Unit
IsPlain (x ∷ xs) = PlainNode x × (x ≢ Node.basic_type Kind.poison (negsuc 0)) × IsPlain xs

IsPlain-node_at :
    (xs : List Node) (i : ℕ) (x : Node)
    → IsPlain xs
    → node_at xs i ≡ some x
    → PlainNode x × (x ≢ Node.basic_type Kind.poison (negsuc 0))
unfolding node_at
IsPlain-node_at [] i x h e = cc
IsPlain-node_at (y ∷ xs) zero x (h, k, rest) e =
    let p : y ≡ x = cc e in (subst PlainNode p h, λ q. k (p ∙ q))
IsPlain-node_at (y ∷ xs) (suc i) x (h, k, rest) e = IsPlain-node_at xs i x rest e

-- The poison type stands in its place among the builtin types.
abbrev PlainFrom : ℕ → List Node → Type 0
PlainFrom i [] = Unit
PlainFrom i (x ∷ xs) =
    PlainNode x
    × (x ≡ Node.basic_type Kind.poison (negsuc 0) → builtin i ≡ poison)
    × PlainFrom (suc i) xs

PlainFrom-node_at :
    (i j : ℕ) (xs : List Node) (x : Node)
    → PlainFrom i xs
    → node_at xs j ≡ some x
    → PlainNode x × (x ≡ Node.basic_type Kind.poison (negsuc 0) → builtin (j + i) ≡ poison)
unfolding node_at
PlainFrom-node_at i j [] x h e = cc
PlainFrom-node_at i zero (y ∷ xs) x (h, k, rest) e =
    let p : y ≡ x = cc e in (subst PlainNode p h, λ q. ap builtin (omega arith) ∙ k (p ∙ q))
PlainFrom-node_at i (suc j) (y ∷ xs) x (h, k, rest) e =
    let (plain, here) = PlainFrom-node_at (suc i) j xs x rest e in
    (plain, λ q. ap builtin (omega arith) ∙ here q)

builtin_nodes-PlainFrom : PlainFrom 0 builtin_nodes
unfolding builtin_nodes
builtin_nodes-PlainFrom = (
  tt,
  (λ e. cc e),
  (
    tt,
    (λ e. cc e),
    (
      tt,
      (λ e. cc e),
      (
        tt,
        (λ e. cc e),
        (
          tt,
          (λ e. cc e),
          (
            tt,
            (λ e. cc e),
            (
              tt,
              (λ e. cc e),
              (
                tt,
                (λ e. cc e),
                (
                  tt,
                  (λ e. cc e),
                  (
                    tt,
                    (λ e. cc e),
                    (
                      tt,
                      (λ e. cc e),
                      (
                        tt,
                        (λ e. cc e),
                        (
                          tt,
                          (λ e. cc e),
                          (
                            tt,
                            (λ e. cc e),
                            (
                              tt,
                              (λ e. refl),
                              (tt, (λ e. cc e), (tt, (λ e. cc e), ((λ e. cc e), (λ e. cc e), tt))),
                            ),
                          ),
                        ),
                      ),
                    ),
                  ),
                ),
              ),
            ),
          ),
        ),
      ),
    ),
  ),
)

pub Plain-program : (pool : Pool) → IsPlain pool → Plain pool
unfolding node_of
Plain-program pool h = record { nodes = nodes; basics = basics }
  where
    nodes : (a : Address) (x : Node) → node_of pool a ≡ some x → PlainNode x
    nodes (builtin j) x e = (PlainFrom-node_at 0 j builtin_nodes x builtin_nodes-PlainFrom e).0
    nodes (at j) x e = (IsPlain-node_at pool j x h e).0

    basics :
        (t : Address) → node_of pool t ≡ some (Node.basic_type Kind.poison (negsuc 0)) → t ≡ poison
    basics (builtin j) e =
        ap builtin (omega arith)
        ∙ (PlainFrom-node_at 0 j builtin_nodes _ builtin_nodes-PlainFrom e).1 refl
    basics (at j) e = absurd ((IsPlain-node_at pool j _ h e).1 refl)
