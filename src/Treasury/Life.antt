-- ===== src/Treasury/Life.antt =====
-- The cash register over any sequence of requests.
use aurapro.Prelude.{
  ℕ, ◌≡◌, refl, ◌∙◌, sym, ap, subst, String, Option, none, some, arith, ltb, ◌==◌, Option-cases,
  Bool-cases, inl, inr, all, not, ◌&&◌,
}
use aurapro.Models.{Database}
use aurapro.Models.Treasury.{CashSession, CashMovementType, cash_session_row}
use aurapro.Session
use aurapro.Session.{Session, Result, ok, err}
use aurapro.Session.Errors.{Error}
use aurapro.Session.Rules.{Result-cases}
use aurapro.Query.{find_by_id}
use aurapro.Treasury.{
  is_open, get_open_cash_session, open_cash_session, get_cash_session, add_cash_movement,
  add_cash_movement_row, close_cash_session, expected_amount, numeric_limit, fits_numeric,
}
use aurapro.Treasury.Effects.{get_open_cash_session-eq-ok}
use aurapro.Treasury.Rules.{get_open_cash_session-IsUncommitted}
use aurapro.Treasury.Balance.{till}
use aurapro.Treasury.Sessions.{
  IsSingleOpen, open_cash_session-IsSingleOpen, close_cash_session-IsSingleOpen,
}

-- The requests of any tenant `w` on its cash sessions, with what each leaves committed, whether it
-- returned or raised.
pub data Step : Database → Database → Type 0 where
  opening :
      (w now user_id amount : ℕ) {d : Database}
      → Step d (open_cash_session w user_id amount (Session.opened w now d)).1.committed
  movement :
      (w now k amount : ℕ) (type : CashMovementType) (text : Option String) {d : Database}
      → Step d (add_cash_movement w k type amount text (Session.opened w now d)).1.committed
  closing :
      (w now k user_id declared : ℕ) {d : Database}
      → Step d (close_cash_session k user_id declared (Session.opened w now d)).1.committed

-- Any number of them.
pub data Steps : Database → Database → Type 0 where
  done : {d : Database} → Steps d d
  step : {d d' d'' : Database} → Step d d' → Steps d' d'' → Steps d d''

open_cash_session-eq-err :
    (t user_id amount : ℕ) (s : Session) (e : Error) (s' : Session)
    → open_cash_session t user_id amount s ≡ (err e, s')
    → s'.committed ≡ s.committed
unfolding open_cash_session
open_cash_session-eq-err t user_id amount s e s' h = elim (Result-cases (get_open_cash_session s)) [
  | inr (e1, s1, failed) ↦
      let here : s1.committed ≡ s.committed =
        subst (λ (z : Result (Option CashSession) × Session). z.1.committed ≡ s.committed) failed
          (get_open_cash_session-IsUncommitted.committed s) in
      let last : s1 ≡ s' = ground (arith, h, failed) in
      ap (λ (z : Session). z.committed) (sym last) ∙ here
  | inl (some there, s1, got) ↦
      let same = (get_open_cash_session-eq-ok s (some there) s1 got).1 in ground arith
  | inl (none, s1, got) ↦
      let same = (get_open_cash_session-eq-ok s none s1 got).1 in
      elim (Bool-cases (
        ltb amount numeric_limit
        && all (λ c. not (is_open c && c.tenant_id == t)) s.pending.cash_sessions)) [
          | inr unfit ↦ ground arith
          | inl fits ↦ absurd (ground arith)
        ]
]

close_cash_session-eq-err :
    (k user_id declared : ℕ) (s : Session) (e : Error) (s' : Session)
    → close_cash_session k user_id declared s ≡ (err e, s')
    → s'.committed ≡ s.committed
unfolding close_cash_session get_cash_session
close_cash_session-eq-err k user_id declared s e s' h =
    elim (Option-cases (find_by_id s.scope k s.pending.cash_sessions)) [
      | inl absent ↦ ground arith
      | inr (session, found) ↦ elim (Bool-cases (is_open session)) [
        | inr settled ↦ ground arith
        | inl open_now ↦
            let ms = till s.scope k s.pending.cash_movements in
            elim (Bool-cases (
              ltb declared numeric_limit
              && fits_numeric (expected_amount session.opening_amount ms))) [
                | inr unfit ↦ ground arith
                | inl fits ↦ absurd (ground arith)
              ]
      ]
    ]

add_cash_movement-sessions :
    (t k amount now : ℕ) (type : CashMovementType) (text : Option String) (d : Database)
    → (add_cash_movement t k type amount text (Session.opened t now d)).1.committed.cash_sessions
      ≡ d.cash_sessions
unfolding add_cash_movement get_cash_session add_cash_movement_row
add_cash_movement-sessions t k amount now type text d =
    elim (Option-cases (find_by_id (some t) k d.cash_sessions)) [
      | inl absent ↦ rw absent refl
      | inr (session, found) ↦ rw found (elim (Bool-cases (is_open session)) [
        | inr settled ↦ rw settled refl
        | inl open_now ↦ rw open_now (elim (Bool-cases (ltb 0 amount && ltb amount numeric_limit)) [
          | inl fits ↦ rw fits refl
          | inr unfit ↦ rw unfit refl
        ])
      ])
    ]

abbrev IsSingle : ℕ → Database → Type 0
IsSingle t d = IsSingleOpen t d.cash_sessions

opening_keeps :
    (t w now user_id amount : ℕ) (d : Database)
    → IsSingle t d
    → IsSingle t (open_cash_session w user_id amount (Session.opened w now d)).1.committed
opening_keeps t w now user_id amount d single =
    let s = Session.opened w now d in
    elim (Result-cases (open_cash_session w user_id amount s)) [
      | inl (r, s', h) ↦
          rw h ((open_cash_session-IsSingleOpen w user_id amount s r s' h t single).0)
      | inr (e, s', h) ↦
          rw h
            (subst (IsSingle t) (sym (open_cash_session-eq-err w user_id amount s e s' h)) single)
    ]

closing_keeps :
    (t w now k user_id declared : ℕ) (d : Database)
    → IsSingle t d
    → IsSingle t (close_cash_session k user_id declared (Session.opened w now d)).1.committed
closing_keeps t w now k user_id declared d single =
    let s = Session.opened w now d in
    elim (Result-cases (close_cash_session k user_id declared s)) [
      | inl (r, s', h) ↦
          let fewer = close_cash_session-IsSingleOpen k user_id declared s r s' h t in
          rw h (omega (arith, fewer, single))
      | inr (e, s', h) ↦
          rw h (
            subst (IsSingle t) (sym (close_cash_session-eq-err k user_id declared s e s' h)) single)
    ]

Step-IsSingle : (t : ℕ) {d d' : Database} → Step d d' → IsSingle t d → IsSingle t d'
Step-IsSingle t (opening w now user_id amount {d}) single =
    opening_keeps t w now user_id amount d single
Step-IsSingle t (movement w now k amount type text {d}) single =
    subst (IsSingleOpen t) (sym (add_cash_movement-sessions w k amount now type text d)) single
Step-IsSingle t (closing w now k user_id declared {d}) single =
    closing_keeps t w now k user_id declared d single

-- No tenant has two open cash sessions: one that has at most one has still at most one after any
-- number of requests to open and close sessions and to add movements to them, in sessions of any
-- tenants, in any order and whether they succeed or not.
pub no_two_open_sessions :
    (t : ℕ) {d d' : Database}
    → IsSingleOpen t d.cash_sessions
    → Steps d d'
    → IsSingleOpen t d'.cash_sessions
no_two_open_sessions t single done = single
no_two_open_sessions t single (step first rest) =
    no_two_open_sessions t (Step-IsSingle t first single) rest
