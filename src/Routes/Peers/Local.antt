-- ===== src/Routes/Peers/Local.antt =====
-- The node in its own list of peers.
use convergio_mesh.Prelude.{
  ◌∙◌, ◌+◌, ◌≡◌, refl, Bool, true, false, List, [], ◌∷◌, some, not, any, All, map, keep, length,
  arith, if◌then◌else◌, Bool-cases, inl, inr,
}
use convergio_mesh.Prelude.Int.{ℤ}
use convergio_mesh.Prelude.Text.{codes}
use convergio_mesh.Prelude.Text.Order.{text_eq_refl}
use convergio_mesh.Prelude.Map.{Map}
use convergio_mesh.Routes.Heartbeat.{Heartbeat}
use convergio_mesh.Routes.Peers.{
  PeerView, Host, view_of, is_local, self_view, fix_self, with_self, handle_peers,
}
use convergio_mesh.Routes.Rows.{table}

module _ (now : ℤ) (host : Host) where
  abbrev here : PeerView → Bool
  here p = is_local host.name p.peer

  -- Online, of now, and of the running version.
  abbrev pub IsFresh : PeerView → Type 0
  IsFresh p = (p.status ≡ codes "online") × (p.version ≡ some host.version) × (p.last_seen ≡ now)

  -- The list that is answered against the list of the rows.
  pub record Answered (rows answer : List PeerView) : Type 0 where
    pub fresh : All IsFresh (keep (λ (p : PeerView). is_local host.name p.peer) answer)
    pub listed : any (λ (p : PeerView). is_local host.name p.peer) answer ≡ true
    pub others :
        keep (λ (p : PeerView). not (is_local host.name p.peer)) answer
        ≡ keep (λ (p : PeerView). not (is_local host.name p.peer)) rows
    pub count :
        length answer
        ≡ length rows + (if any (λ (p : PeerView). is_local host.name p.peer) rows then 0 else 1)

  fix_self-IsFresh :
      (p : PeerView) → is_local host.name p.peer ≡ true → IsFresh (fix_self now host p)
  unfolding fix_self
  fix_self-IsFresh p h = ground arith

  fix_self-here :
      (p : PeerView) → is_local host.name (fix_self now host p).peer ≡ is_local host.name p.peer
  unfolding fix_self
  fix_self-here p = ground arith

  fix_self-other : (p : PeerView) → is_local host.name p.peer ≡ false → fix_self now host p ≡ p
  unfolding fix_self
  fix_self-other p h = ground arith

  All-fix : (ps : List PeerView) → All IsFresh (keep here (map (fix_self now host) ps))
  All-fix [] = tt
  All-fix (p ∷ ps) = elim (Bool-cases (is_local host.name p.peer)) [
    | inl e ↦ rw (fix_self-here p, e) (fix_self-IsFresh p e, All-fix ps)
    | inr e ↦ rw (fix_self-here p, e) (All-fix ps)
  ]

  any-fix :
      (ps : List PeerView)
      → any (λ (p : PeerView). is_local host.name p.peer) (map (fix_self now host) ps)
        ≡ any (λ (p : PeerView). is_local host.name p.peer) ps
  any-fix [] = refl
  any-fix (p ∷ ps) = ground (arith, fix_self-here p, any-fix ps)

  keep-fix :
      (ps : List PeerView)
      → keep (λ (p : PeerView). not (is_local host.name p.peer)) (map (fix_self now host) ps)
        ≡ keep (λ (p : PeerView). not (is_local host.name p.peer)) ps
  keep-fix [] = refl
  keep-fix (p ∷ ps) = ground (arith, fix_self-here p, fix_self-other p, keep-fix ps)

  length-fix : (ps : List PeerView) → length (map (fix_self now host) ps) ≡ length ps
  length-fix [] = refl
  length-fix (p ∷ ps) = omega (arith, length-fix ps)

  none-fresh :
      (ps : List PeerView)
      → any (λ (p : PeerView). is_local host.name p.peer) ps ≡ false
      → keep here ps ≡ []
  none-fresh [] h = refl
  none-fresh (p ∷ ps) h = ground (arith, none-fresh ps)

  self_view-here : is_local host.name (self_view now host).peer ≡ true
  unfolding self_view is_local
  self_view-here = ground (arith, text_eq_refl host.name)

  self_view-IsFresh : IsFresh (self_view now host)
  unfolding self_view
  self_view-IsFresh = (refl, refl, refl)

  with_self-Answered : (rows : List PeerView) → Answered rows (with_self now host rows)
  unfolding with_self
  with_self-Answered rows =
      elim (Bool-cases (any (λ (p : PeerView). is_local host.name p.peer) rows)) [
        | inl e ↦ rw e (record {
          fresh = All-fix rows;
          listed = any-fix rows ∙ e;
          others = keep-fix rows;
          count = ground (arith, length-fix rows);
        })
        | inr e ↦ rw e (record {
          fresh = rw (self_view-here, none-fresh rows e) (self_view-IsFresh, tt);
          listed = ground (arith, self_view-here);
          others = ground (arith, self_view-here);
          count = ground arith;
        })
      ]

  -- The list of peers, over a table that can be read, has the node itself, and wherever the node
  -- stands in it, it is online, seen now and of the running version. The rows of all other peers are
  -- in the list unchanged and in their order, and the list is longer than the table by one exactly if
  -- no row is the node's.
  pub handle_peers-Answered :
      (t : Map Heartbeat)
      → (ps : List PeerView) × (handle_peers now host (some (table t)) ≡ some ps)
        × Answered (map (view_of now) t) ps
  unfolding handle_peers
  handle_peers-Answered t =
      (with_self now host (map (view_of now) t), refl, with_self-Answered (map (view_of now) t))
