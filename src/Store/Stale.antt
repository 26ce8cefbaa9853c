-- ===== src/Store/Stale.antt =====
-- ExpireStalePeers of server/internal/database/queries/peers.go.
use vpn_cloude.Base.{
  ℕ, ◌+◌, ◌≤◌, ◌≡◌, refl, ◌⊎◌, inl, inr, Bool, true, false, ◌&&◌, none, some, List, [], ◌∷◌, All,
  if_split, Option-cases, arith,
}
use vpn_cloude.Base.Select.{keep}
use vpn_cloude.Store.{Row}
use vpn_cloude.Store.Updates.{is_stale, expire_row, expire_stale_peers}

abbrev pub never_seen : Row → Bool
never_seen row = elim row.last_seen [ none ↦ true | some seen ↦ false ]

-- Offline, or never seen, or seen not longer ago than allowed.
abbrev pub IsFresh : ℕ → ℕ → Row → Type 0
IsFresh now stale_after row =
    row.is_online ≡ true
    → (row.last_seen ≡ none)
      ⊎ ((seen : ℕ) × (row.last_seen ≡ some seen) × (now ≤ seen + stale_after))

expire_row-IsFresh :
    (now stale_after : ℕ) (row : Row) → IsFresh now stale_after (expire_row now stale_after row)
unfolding expire_row
expire_row-IsFresh now stale_after row =
    if_split (IsFresh now stale_after) (row.is_online && is_stale now stale_after row.last_seen)
      (λ stale online. absurd (cc online))
      (λ fresh online. elim (Option-cases row.last_seen) [
        | inl never ↦ inl never
        | inr (seen, there) ↦ inr (seen, there, ground (arith, fresh, online, there))
      ])

never_seen-expire :
    (now stale_after : ℕ) (row : Row) (before after : List Row)
    → keep never_seen after ≡ keep never_seen before
    → keep never_seen (expire_row now stale_after row ∷ after) ≡ keep never_seen (row ∷ before)
unfolding expire_row keep
never_seen-expire now stale_after row before after h = elim (Option-cases row.last_seen) [
  | inl never ↦ ground (arith, never, h)
  | inr (seen, there) ↦ ground (arith, there, h)
]

-- After the sweep a peer is online only if it was seen not longer ago than allowed, or was never seen; the
-- peers that were never seen are as they were.
pub expire_stale_peers-IsFresh :
    (now stale_after : ℕ) (rows : List Row)
    → All (IsFresh now stale_after) (expire_stale_peers now stale_after rows)
      × (keep never_seen (expire_stale_peers now stale_after rows) ≡ keep never_seen rows)
unfolding expire_stale_peers
expire_stale_peers-IsFresh now stale_after [] = (tt, refl)
expire_stale_peers-IsFresh now stale_after (row ∷ rows) =
    let (fresh, kept) = expire_stale_peers-IsFresh now stale_after rows in
    (
      (expire_row-IsFresh now stale_after row, fresh),
      never_seen-expire now stale_after row rows (expire_stale_peers now stale_after rows) kept,
    )
