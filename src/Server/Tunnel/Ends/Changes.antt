-- ===== src/Server/Tunnel/Ends/Changes.antt =====
-- What changes of one end and of the table keep what holds between the ends of
-- `handle_tunnel` (crates/server/src/tunnel.rs).
use war3_battle_tool.Prelude.{
  ◌≡◌, refl, String, true, false, none, some, string_eq, nat_eq, ◌≢◌, arith, eq_iff, ◌∙◌,
}
use war3_battle_tool.HashMap.{get, insert}
use war3_battle_tool.HashMap.Laws.{get-insert}
use war3_battle_tool.Server.Channel.{Sender}
use war3_battle_tool.Server.Tunnel.{TunnelState, WaitingPeer}
use war3_battle_tool.Server.Tunnel.Ends.{Stage, End, Ends, update, set, target}
use war3_battle_tool.Server.Tunnel.Ends.Invariant.{is_open, is_known, to, Inv, moved-Inv}

-- A smaller table, and the ends as they are.
pub smaller-Inv :
    (y : Ends) (w : TunnelState)
    → ((token : String) (peer : WaitingPeer)
        → get token w.waiting ≡ some peer
        → get token y.tunnel.waiting ≡ some peer)
    → Inv y
    → Inv (record y { tunnel = w })
smaller-Inv y w listed i = record {
  waits = λ t peer h. i.waits t peer (listed t peer h);
  token_eq = λ t peer h. i.token_eq t peer (listed t peer h);
  unclaimed = λ t peer a h. i.unclaimed t peer a (listed t peer h);
  known = i.known;
  same_token = i.same_token;
  unique = i.unique;
  mutual_eq = i.mutual_eq;
}

module _ (tx : Sender) (y : Ends) (i : Inv y) where
  abbrev pub now_at : Stage
  now_at = (y.end tx).stage

  -- An end that is not open does not stand in the table.
  pub unlisted :
      (t : String) (peer : WaitingPeer)
      → is_open now_at ≡ false
      → get t y.tunnel.waiting ≡ some peer
      → peer.tx ≢ tx
  unlisted t peer shut h e = ground (arith, i.waits t peer h)

  -- An end that was not known, with a new stage that has no channel.
  pub unknown-Inv :
      (e : End)
      → is_known now_at ≡ false
      → is_open now_at ≡ false
      → target e.stage ≡ none
      → Inv (record y { end = update y.end tx e })
  unknown-Inv e new shut empty =
      moved-Inv tx e y.tunnel y
        (record {
          still_known = cc;
          still_named = cc;
          no_new = λ p h. cc;
          listed = λ t peer h. h;
          still_open = λ t peer h k. absurd (unlisted t peer shut h k);
        })
        i

  -- A known end that goes on or ends, and a table that loses at most the entry of its token.
  pub quiet-Inv :
      (stage : Stage) (w : TunnelState)
      → ((t : String) (peer : WaitingPeer)
          → get t w.waiting ≡ some peer
          → get t y.tunnel.waiting ≡ some peer)
      → is_known stage ≡ is_known now_at
      → ((t : String) (peer : WaitingPeer)
          → get t w.waiting ≡ some peer
          → peer.tx ≡ tx
          → is_open stage ≡ true)
      → ((p : Sender) → target stage ≡ some p → to y tx ≡ some p)
      → Inv (set tx stage (record y { tunnel = w }))
  quiet-Inv stage w listed known still_open no_new =
      moved-Inv tx (record (y.end tx) { stage = stage }) w y
        (record {
          still_known = λ h. known ∙ h;
          still_named = λ h. refl;
          no_new = λ p h. (no_new p h, refl);
          listed = listed;
          still_open = λ t peer h k. (still_open t peer h k, refl);
        })
        i

  -- With the table as it is.
  pub same_table-Inv :
      (stage : Stage)
      → is_known stage ≡ is_known now_at
      → (is_open now_at ≡ true → is_open stage ≡ true)
      → ((p : Sender) → target stage ≡ some p → to y tx ≡ some p)
      → Inv (set tx stage y)
  same_table-Inv stage known open_on no_new =
      quiet-Inv stage y.tunnel (λ t peer h. h) known
        (λ t peer h k. open_on (ground (arith, i.waits t peer h))) no_new

  -- An end that nobody knew, and that keeps the channel that it has.
  pub grown-Inv :
      (stage : Stage)
      → is_known now_at ≡ false
      → is_open now_at ≡ false
      → ((p : Sender) → target stage ≡ some p → to y tx ≡ some p)
      → Inv (set tx stage y)
  grown-Inv stage new shut no_new =
      moved-Inv tx (record (y.end tx) { stage = stage }) y.tunnel y
        (record {
          still_known = cc;
          still_named = cc;
          no_new = λ p h. (no_new p h, refl);
          listed = λ t peer h. h;
          still_open = λ t peer h k. absurd (unlisted t peer shut h k);
        })
        i

  -- Nobody has the channel of an end that is not known.
  pub unknown-untargeted : is_known now_at ≡ false → (a : Sender) → to y a ≢ some tx
  unknown-untargeted new a h = ground (arith, i.known a tx h)

  -- An end that gets the channel of another.
  pub claim-Inv :
      (stage : Stage) (q : Sender)
      → target stage ≡ some q
      → is_known (y.end q).stage ≡ true
      → (is_known now_at ≡ true → is_known stage ≡ true)
      → (y.end tx).token ≡ (y.end q).token
      → ((a : Sender) → to y a ≢ some q)
      → ((t : String) (peer : WaitingPeer)
          → get t y.tunnel.waiting ≡ some peer
          → (peer.tx ≢ tx) × (peer.tx ≢ q))
      → ((a : Sender) → to y a ≡ some tx → a ≡ q)
      → ((b : Sender) → to y q ≡ some b → b ≡ tx)
      → Inv (set tx stage y)
  claim-Inv stage q targets known_q stays same free shut met meets = record {
    waits = λ t peer h. ground (arith, i.waits t peer h, shut t peer h);
    token_eq = λ t peer h. ground (arith, i.token_eq t peer h, shut t peer h);
    unclaimed = λ t peer a h k. ground (arith, i.unclaimed t peer a h, shut t peer h);
    known = λ a p h. ground (arith, i.known a p);
    same_token = λ a p h. ground (arith, i.same_token a p);
    unique = λ a b p h k. ground (arith, i.unique a b p, free a, free b);
    mutual_eq = λ a b p h k. ground (arith, i.mutual_eq a b p, met a, meets b);
  }

  -- The table gains the entry of an end whose channel nobody has.
  pub listed-Inv :
      (t : String) (peer : WaitingPeer)
      → is_open (y.end peer.tx).stage ≡ true
      → (y.end peer.tx).token ≡ t
      → ((a : Sender) → to y a ≢ some peer.tx)
      → Inv (record y { tunnel = record y.tunnel { waiting = insert t peer y.tunnel.waiting } })
  listed-Inv t peer opened named free = record {
    waits = λ j w h. ground (arith, i.waits j w, get-insert t j peer y.tunnel.waiting);
    token_eq =
        λ j w h. ground (arith, i.token_eq j w, get-insert t j peer y.tunnel.waiting, eq_iff t j);
    unclaimed = λ j w a h k.
        ground (arith, i.unclaimed j w a, free a, get-insert t j peer y.tunnel.waiting);
    known = i.known;
    same_token = i.same_token;
    unique = i.unique;
    mutual_eq = i.mutual_eq;
  }
