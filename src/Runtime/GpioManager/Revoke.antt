-- ===== src/Runtime/GpioManager/Revoke.antt =====
-- `revoke_owner` of crates/robot-hal-runtime/src/gpio_manager.rs.
use robot_hal.Prelude.{
  ℕ, suc, ◌≡◌, ◌≢◌, refl, Option, none, some, List, [], ◌∷◌, ◌++◌, get, get-remove, nat_eq, arith,
  ==_iff, String, ◌∙◌, sym, ap, subst, Map, Option-cases, inl, inr, false,
}
use robot_hal.Core.Names.{SessionId, session_id_eq}
use robot_hal.Core.Error.{HalResult, ok, err, is_ok}
use robot_hal.Runtime.GpioManager.{Entry, Manager, Task, add_task, reap}
use robot_hal.Runtime.GpioManager.Calls.{end_round, task_session, finish_session, revoke_loop}
use robot_hal.Runtime.GpioManager.Safety.{insert_cases}

-- The workers of these sessions close without an error.
abbrev AllClosed : (SessionId → Option (HalResult (Unit {0}))) → List (SessionId × Entry) → Type 0
AllClosed waits [] = Unit {0}
AllClosed waits ((id, entry) ∷ rest) = (waits id ≡ some (ok tt)) × AllClosed waits rest

abbrev Without : SessionId → List (SessionId × Entry) → Type 0
Without j [] = Unit {0}
Without j ((id, entry) ∷ rest) = (id ≢ j) × Without j rest

-- Nothing was started or finished for a session.
abbrev pub LeftAlone : SessionId → Manager → Manager → Type 0
LeftAlone j m m' =
    (get j m'.sessions ≡ get j m.sessions)
    × ((v : ℕ) (t : Task) → get v m'.tasks ≡ some t → task_session t ≡ j → get v m.tasks ≡ some t)

finish_leaves :
    (m : Manager) (id j : SessionId)
    → id ≢ j
    → (get j (finish_session m id).sessions ≡ get j m.sessions)
      × ((finish_session m id).tasks ≡ m.tasks)
unfolding finish_session
finish_leaves m id j other = elim (Option-cases (get id m.sessions)) [
  | inl e ↦ rw (e, finish_session) (refl, refl)
  | inr (entry, e) ↦
      rw (e, finish_session) (ground (arith, get-remove id j m.sessions, ==_iff id j, other), refl)
]

added :
    (m : Manager) (n : ℕ) (id j : SessionId) (w : ℕ)
    → id ≢ j
    → LeftAlone j m (add_task m n (reap id w))
added m n id j w other = (
  refl,
  λ v t at is. elim (insert_cases n v (reap id w) t m.tasks at) [
    | inl (e, f) ↦ absurd (other (ap task_session (sym f) ∙ is))
    | inr (away, at') ↦ at'
  ],
)

round_leaves :
    (m : Manager) (n : ℕ) (id j : SessionId) (entry : Entry) (timeout : String)
    (o : Option (HalResult (Unit {0})))
    → id ≢ j
    → LeftAlone j m (end_round (add_task m n (reap id entry.worker)) id entry.resource timeout o).0
unfolding end_round
round_leaves m n id j entry timeout none other = added m n id j entry.worker other
round_leaves m n id j entry timeout (some (err e)) other = added m n id j entry.worker other
round_leaves m n id j entry timeout (some (ok u)) other =
    let m' = add_task m n (reap id entry.worker) in
    let (same, tasks) = finish_leaves m' id j other in
    (
      same,
      λ v t at is.
          (added m n id j entry.worker other).1 v t
            (subst (λ (x : Map ℕ Task). get v x ≡ some t) tasks at) is,
    )

left_trans :
    (j : SessionId) (m m' m'' : Manager) → LeftAlone j m m' → LeftAlone j m' m'' → LeftAlone j m m''
left_trans j m m' m'' (a, b) (c, d) = (c ∙ a, λ v t at is. b v t (d v t at is) is)

round_of : Manager → ℕ → String → SessionId → Entry → Option (HalResult (Unit {0})) → Manager
round_of m n timeout id entry o =
    (end_round (add_task m n (reap id entry.worker)) id entry.resource timeout o).0

loop_stops :
    (m : Manager) (n : ℕ) (timeout : String) (waits : SessionId → Option (HalResult (Unit {0})))
    (rest : List (SessionId × Entry)) (id : SessionId) (entry : Entry)
    (o : Option (HalResult (Unit {0})))
    → waits id ≡ o
    → o ≢ some (ok tt)
    → (is_ok (revoke_loop m n timeout waits ((id, entry) ∷ rest)).1 ≡ false)
      × ((revoke_loop m n timeout waits ((id, entry) ∷ rest)).0 ≡ round_of m n timeout id entry o)
unfolding revoke_loop round_of
loop_stops m n timeout waits rest id entry none e fails =
    rw (e, revoke_loop) (refl, rw (e, end_round) refl)
loop_stops m n timeout waits rest id entry (some (err x)) e fails =
    rw (e, revoke_loop) (refl, rw (e, end_round) refl)
loop_stops m n timeout waits rest id entry (some (ok u)) e fails = absurd (fails refl)

loop_goes :
    (m : Manager) (n : ℕ) (timeout : String) (waits : SessionId → Option (HalResult (Unit {0})))
    (rest : List (SessionId × Entry)) (id : SessionId) (entry : Entry)
    → waits id ≡ some (ok tt)
    → revoke_loop m n timeout waits ((id, entry) ∷ rest)
      ≡ revoke_loop (round_of m n timeout id entry (some (ok tt))) (suc n) timeout waits rest
unfolding revoke_loop round_of
loop_goes m n timeout waits rest id entry e = rw (e, revoke_loop) (rw (e, end_round) refl)

-- When one wait of `revoke_owner` fails or takes too long, its loop ends with an error: every session
-- after it, which was already asked to close, stays in the table, and no task is started that would
-- release its lease once its worker has ended.
pub revoke_abandons :
    (m : Manager) (n : ℕ) (timeout : String) (waits : SessionId → Option (HalResult (Unit {0})))
    (closed rest : List (SessionId × Entry)) (id j : SessionId) (entry : Entry)
    → AllClosed waits closed
    → waits id ≢ some (ok tt)
    → Without j closed
    → id ≢ j
    → let (m', result) = revoke_loop m n timeout waits (closed ++ ((id, entry) ∷ rest)) in
      (is_ok result ≡ false) × LeftAlone j m m'
unfolding round_of
revoke_abandons m n timeout waits [] rest id j entry all fails out other =
    let (stops, same) = loop_stops m n timeout waits rest id entry (waits id) refl fails in
    (stops, subst (LeftAlone j m) (sym same) (round_leaves m n id j entry timeout (waits id) other))
revoke_abandons m n timeout waits ((i, e) ∷ closed) rest id j entry (closes, all) fails (apart, out)
      other =
    let m' = round_of m n timeout i e (some (ok tt)) in
    let goes = loop_goes m n timeout waits (closed ++ ((id, entry) ∷ rest)) i e closes in
    let (stops, left) =
      revoke_abandons m' (suc n) timeout waits closed rest id j entry all fails out other in
    (
      ap (λ (r : Manager × HalResult (Unit {0})). is_ok r.1) goes ∙ stops,
      subst (LeftAlone j m) (sym (ap (λ (r : Manager × HalResult (Unit {0})). r.0) goes)) (
          left_trans j m m'
            (revoke_loop m' (suc n) timeout waits (closed ++ ((id, entry) ∷ rest))).0
            (round_leaves m n i j e timeout (some (ok tt)) apart) left),
    )
