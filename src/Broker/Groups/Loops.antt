-- ===== src/Broker/Groups/Loops.antt =====
-- The loops over all the groups of crates/broker/src/groups.rs.
use sevlamq.Prelude.{Bool, List, [], false, if◌then◌else◌, inr, refl, true, ℕ, ◌∷◌, ◌≟◌}
use sevlamq.Prelude.{bytes_eq, pair_eq}
use sevlamq.Protocol.Types.{Bytes}
use sevlamq.Broker.Groups.Group.{ConsumerGroup, Result, err, ok}
use sevlamq.Broker.Groups.Coordinator.{Groups, expire_loop, expire_next, refresh}
use sevlamq.Broker.Groups.Joining.{reload_loop, reload_next}
use sevlamq.Broker.Groups.Fencing.{Keeps, Keeps-members, Keeps-refresh}
use sevlamq.Broker.Groups.Evolution.{AllKept, AllKept-cons, AllKept-refl}

pub expire_loop-AllKept :
    (count : Bytes → ℕ) (timeout now : ℕ) (gs : Groups)
    → AllKept gs ((expire_loop count timeout now gs).1)
unfolding expire_loop
expire_loop-AllKept count timeout now [] = AllKept-refl []
expire_loop-AllKept count timeout now ((key, state) ∷ rest) =
    expire_next-AllKept key state rest (expire_loop count timeout now rest)
      (refresh timeout (count (key.1)) now state) (Keeps-refresh timeout (count (key.1)) now state)
      (expire_loop-AllKept count timeout now rest)
  where
    expire_next-AllKept :
        (key : Bytes × Bytes) (state : ConsumerGroup) (rest : Groups)
        (done : Result (Unit {0}) × Groups) (refreshed : Result (Unit {0}) × ConsumerGroup)
        → Keeps state (refreshed.1)
        → AllKept rest (done.1)
        → AllKept ((key, state) ∷ rest) ((expire_next key rest done refreshed).1)
    expire_next-AllKept key state rest done (err e, state') keeps kept =
        AllKept-cons key state state' rest rest keeps (AllKept-refl rest)
    expire_next-AllKept key state rest done (ok _, state') keeps kept =
        AllKept-cons key state state' rest (done.1) keeps kept

pub reload_loop-AllKept :
    (load : Bytes → Result (List (ℕ × ℕ))) (topic : Bytes) (gs : Groups)
    → AllKept gs ((reload_loop load topic gs).1)
unfolding reload_loop
reload_loop-AllKept load topic [] = AllKept-refl []
reload_loop-AllKept load topic ((key, state) ∷ rest) =
    reload_if-AllKept (key.1 ≟ topic) (load (key.0)) (reload_loop-AllKept load topic rest)
  where
    reload_if-AllKept :
        (test : Bool) (loaded : Result (List (ℕ × ℕ)))
        → AllKept rest ((reload_loop load topic rest).1)
        → AllKept ((key, state) ∷ rest) (
            (if test then reload_next key state rest (reload_loop load topic rest) loaded else (
              (reload_loop load topic rest).0,
              (key, state) ∷ (reload_loop load topic rest).1,
            )).1)
    reload_if-AllKept false loaded kept =
        AllKept-cons key state state rest _ (Keeps-members state state.members) kept
    reload_if-AllKept true (err e) kept = AllKept-refl ((key, state) ∷ rest)
    reload_if-AllKept true (ok offsets) kept =
        AllKept-cons key state _ rest _ (inr (refl, refl), λ exclusive. exclusive) kept
