-- ===== src/Client/Counted.antt =====
-- src/lib.rs: how the calls of a client move the sequence numbers of its connections.
pub mod Calls
use ant_wasm_client.Base.{
  ℕ, zero, suc, ◌≤◌, ◌≡◌, refl, sym, ap, ◌∙◌, subst, Option, none, some, get_elem?, set, List, [],
  ◌∷◌, All, arith,
}
use ant_wasm_client.Action.{Action}
use ant_wasm_client.Action.Moves.{Moves, IsPreorder}
use ant_wasm_client.Tunnel.{max_seq}
use ant_wasm_client.Conn.{NodeConnection}
use ant_wasm_client.Conn.Identity.{Advances, Advances-IsPreorder}
use ant_wasm_client.Client.{Client, run_on, on_connection}

-- A connection whose next number is one of those that requests may use, or the last behind them.
abbrev pub IsCounted : NodeConnection → Type 0
IsCounted c = (1 ≤ c.next_seq) × (c.next_seq ≤ max_seq)

-- A connection that is still there, as the same session, with a counter that was not set back.
abbrev pub StillAt : List NodeConnection → ℕ → NodeConnection → Type 0
StillAt heap id c = (c' : NodeConnection) × (get_elem? heap id ≡ some c') × Advances c c'

pub record Advanced (s s' : Client) : Type 0 where
  pub still : (id : ℕ) (c : NodeConnection) → get_elem? s.heap id ≡ some c → StillAt s'.heap id c
  pub counted : All IsCounted s.heap → All IsCounted s'.heap

-- A write of what a connection became.
set-StillAt :
    (heap : List NodeConnection) (i : ℕ) (c c' : NodeConnection)
    → get_elem? heap i ≡ some c
    → Advances c c'
    → (id : ℕ) (d : NodeConnection) → get_elem? heap id ≡ some d
    → StillAt (set heap i c') id d
set-StillAt [] i c c' h a id d k = cc
set-StillAt (x ∷ heap) zero c c' h a zero d k =
    let same : c ≡ d = cc in (c', refl, subst (λ d. Advances d c') same a)
set-StillAt (x ∷ heap) zero c c' h a (suc id) d k = (d, k, Advances-IsPreorder.stay d)
set-StillAt (x ∷ heap) (suc i) c c' h a zero d k = (d, k, Advances-IsPreorder.stay d)
set-StillAt (x ∷ heap) (suc i) c c' h a (suc id) d k = set-StillAt heap i c c' h a id d k

set-IsCounted :
    (heap : List NodeConnection) (i : ℕ) (c c' : NodeConnection)
    → get_elem? heap i ≡ some c
    → Advances c c'
    → All IsCounted heap
    → All IsCounted (set heap i c')
set-IsCounted [] i c c' h a k = tt
set-IsCounted (x ∷ heap) zero c c' h a ((lo, hi), ks) =
    let same : x ≡ c = cc in
    let lo' : 1 ≤ c.next_seq = rw (← same) lo in
    ((omega (arith, a.later), a.within (rw (← same) hi)), ks)
set-IsCounted (x ∷ heap) (suc i) c c' h a (k, ks) = (k, set-IsCounted heap i c c' h a ks)

pub Advanced-same : (s s' : Client) → s'.heap ≡ s.heap → Advanced s s'
Advanced-same s s' same = record {
  still = λ id c h. (c, ap (λ heap. get_elem? heap id) same ∙ h, Advances-IsPreorder.stay c);
  counted = λ h. subst (All IsCounted) (sym same) h;
}

pub Advanced-next : (s s' s'' : Client) → Advanced s s' → Advanced s' s'' → Advanced s s''
Advanced-next s s' s'' a a' = record {
  still = λ id c h.
      let (c', h', k) = a.still id c h in
      let (c'', h'', k') = a'.still id c' h' in (c'', h'', Advances-IsPreorder.next c c' c'' k k');
  counted = λ h. a'.counted (a.counted h);
}

pub Advanced-IsPreorder : IsPreorder Advanced
Advanced-IsPreorder = record { stay = λ s. Advanced-same s s refl; next = Advanced-next }

run_on-Advanced :
    {A : Type 0} (id : ℕ) (m : Action NodeConnection A) (s : Client) (found : Option NodeConnection)
    → Moves Advances m
    → get_elem? s.heap id ≡ found
    → Advanced s (run_on id m s found).1
unfolding run_on
run_on-Advanced id m s none k h = Advanced-same s s refl
run_on-Advanced id m s (some c) k h = record {
  still = set-StillAt s.heap id c (m c).1 h (k.at c);
  counted = set-IsCounted s.heap id c (m c).1 h (k.at c);
}

pub on_connection-Advanced :
    {A : Type 0} (id : ℕ) (m : Action NodeConnection A)
    → Moves Advances m
    → Moves Advanced (on_connection id m)
unfolding on_connection
on_connection-Advanced id m k = record {
  at = λ s. run_on-Advanced id m s (get_elem? s.heap id) k refl;
}
