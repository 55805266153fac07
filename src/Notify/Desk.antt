-- ===== src/Notify/Desk.antt =====
-- pkg/apikit/apinotify/manager.go with its lock and its WaitGroup: calls of Notify and of Close on one
-- manager as steps in any order. A goroutine of Notify ends in one step, which is its call of Send; a
-- call of Close waits for the calls of Notify and then closes the channels in one step.
use mtlogin.Prelude.{
  ℕ, zero, suc, Bool, true, false, Option, none, some, List, [], ◌∷◌, ◌++◌, if◌then◌else◌,
}
use mtlogin.Errors.{GoError, sentinel, manager_closed}
use mtlogin.Context.{Ctx}
use mtlogin.Notify.Manager.{
  Message, Sent, Managed, join_errors, failure, push, send_context, close_all,
}

-- A call of Notify that has passed the lock: the goroutines that have not ended, and those that have,
-- in the order in which they did, with what their Send returned.
pub record Sending (W : Type 0) : Type 0 where
  pub ctx : Ctx
  pub msg : Message
  pub rest : List (Managed W)
  pub made : List (Managed W × Sent)

-- What a call has returned.
pub data Answer (W : Type 0) : Type 0 where
  refused : GoError → Answer W
  notified : List (Managed W × Sent) → Option GoError → Answer W
  closed : Option GoError → Answer W

-- The flag of the manager, the calls that go on, and the answers of those that have returned.
pub record Desk (W : Type 0) : Type 0 where
  pub closing : Bool
  pub calls : List (Sending W)
  pub waiting : ℕ
  pub returned : ℕ
  pub answers : List (Answer W)
  pub world : W

pub data Action : Type 0 where
  notify_call : Ctx → Message → Action
  send_end : ℕ → ℕ → Action
  notify_return : ℕ → Action
  close_call close_return : Action

-- The member at a number, and the others.
abbrev pub take_out {ℓ} : {A : Type ℓ} → ℕ → List A → Option (A × List A)
take_out n [] = none
take_out zero (x ∷ xs) = some (x, xs)
take_out (suc n) (x ∷ xs) = elim (take_out n xs) [ none ↦ none | some (y, ys) ↦ some (y, x ∷ ys) ]

module _ {W : Type 0} where
  -- what errCh holds
  abbrev pub errors_of : List (Managed W × Sent) → List GoError
  errors_of [] = []
  errors_of ((item, s) ∷ made) = push (failure item.name s) (errors_of made)

  abbrev pub is_done : List (Managed W) → Bool
  is_done [] = true
  is_done (item ∷ rest) = false

  -- a goroutine of Notify
  abbrev pub send_item :
      Managed W → List (Managed W) → Sending W → List (Sending W) → Desk W → Desk W
  send_item item rest c cs d =
      let (s, w) = item.send (send_context item c.ctx) c.msg.title c.msg.body d.world in
      record d { world = w; calls = record c { rest = rest; made = c.made ++ (item, s) ∷ [] } ∷ cs }

  -- a manager that has not been called
  abbrev pub fresh : W → Desk W
  fresh w = record {
    closing = false;
    calls = [];
    waiting = 0;
    returned = 0;
    answers = [];
    world = w;
  }

  module _ (notifiers : List (Managed W)) where
    -- Close behind its wait for the calls of Notify
    abbrev pub close_done : List (Sending W) → ℕ → Desk W → Desk W
    close_done (c ∷ cs) n d = d
    close_done [] zero d = d
    close_done [] (suc n) d =
        let (es, w) = close_all notifiers d.world in
        record d {
          waiting = n;
          returned = suc d.returned;
          answers = closed (join_errors es) ∷ d.answers;
          world = w;
        }

    -- One step of a call; what cannot happen in a state leaves it as it is.
    unfoldable pub advance : Action → Desk W → Desk W
    advance (notify_call ctx msg) d =
        if d.closing
        then record d { answers = refused (sentinel manager_closed) ∷ d.answers }
        else record d {
          calls = record { ctx = ctx; msg = msg; rest = notifiers; made = [] } ∷ d.calls;
        }
    advance (send_end i k) d = elim (take_out i d.calls) [
      | none ↦ d
      | some (c, cs) ↦ elim (take_out k c.rest) [
        | none ↦ d
        | some (item, rest) ↦ send_item item rest c cs d
      ]
    ]
    advance (notify_return i) d = elim (take_out i d.calls) [
      | none ↦ d
      | some (c, cs) ↦
          if is_done c.rest
          then record d {
            calls = cs;
            answers = notified c.made (join_errors (errors_of c.made)) ∷ d.answers;
          }
          else d
    ]
    advance close_call d = record d { closing = true; waiting = suc d.waiting }
    advance close_return d = close_done d.calls d.waiting d

    unfoldable pub steps : List Action → Desk W → Desk W
    steps [] d = d
    steps (a ∷ as_) d = steps as_ (advance a d)
