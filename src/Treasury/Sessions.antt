-- ===== src/Treasury/Sessions.antt =====
-- The cash register's sessions: one is open at a time, and a closed one is settled for good.
use mathlib.Core.Path.{ap₂}
use aurapro.Prelude.{
  ℕ, ◌+◌, ◌≡◌, refl, ◌∙◌, ap, subst, true, not, ◌&&◌, none, some, List, [], ◌∷◌, ◌++◌, arith, ltb,
  ◌==◌, ==_iff, ◌≤◌, length, length-append, filter-append, Option-cases, Bool-cases, inl, inr, all,
  filter,
}
use aurapro.Prelude.Int.{ℤ, pos, ◌+ℤ◌, int_laws}
use aurapro.Models.Treasury.{
  CashSession, opened, closed, cash_session_row, CashMovement, cash_movement_row,
}
use aurapro.Session.{Session, ok}
use aurapro.Session.Rules.{Result-cases}
use aurapro.Query.{find_by_id, update_by_id}
use aurapro.Query.Laws.{find_by_id-update}
use aurapro.Treasury.{
  is_open, get_open_cash_session, open_cash_session, get_cash_session, close_cash_session,
  expected_amount, numeric_limit, fits_numeric,
}
use aurapro.Treasury.Effects.{get_open_cash_session-eq-ok}
use aurapro.Treasury.Balance.{till, incomes, expenses}

-- The tenant's sessions that are open, whoever looks.
abbrev pub open_of : ℕ → List CashSession → List CashSession
open_of t sessions = filter (λ c. is_open c && c.tenant_id == t) sessions

-- The row of a session that is closed.
abbrev pub closing : ℕ → ℕ → ℕ → ℤ → CashSession → CashSession
closing user_id now declared expected c = record c {
  status = closed;
  closed_by_user_id = some user_id;
  closed_at = some now;
  closing_amount_declared = some declared;
  closing_amount_expected = some expected;
}

-- What a closed session records.
pub record Closing (session_id user_id declared : ℕ) (s : Session) (r : CashSession) (s' : Session)
    : Type 0 where
  pub session : CashSession
  pub found : find_by_id s.scope session_id s.pending.cash_sessions ≡ some session
  pub was_open : is_open session ≡ true
  pub expected : ℤ
  pub balanced :
      expected +ℤ pos (expenses (till s.scope session_id s.pending.cash_movements))
      ≡ pos (session.opening_amount + incomes (till s.scope session_id s.pending.cash_movements))
  pub row : r ≡ closing user_id s.now declared expected session
  pub stored : find_by_id s'.scope session_id s'.committed.cash_sessions ≡ some r
  pub rows :
      s'.committed.cash_sessions
      ≡ update_by_id session_id (closing user_id s.now declared expected) s.pending.cash_sessions

expected_balanced :
    (opening : ℕ) (ms : List CashMovement)
    → expected_amount opening ms +ℤ pos (expenses ms) ≡ pos (opening + incomes ms)
expected_balanced opening ms = omega int_laws

-- Closing a cash session succeeds only on a session that is seen and open, and records there the
-- user, the time, the declared amount and the expected one: together with the session's expenses
-- this is its opening amount together with its incomes. The closed row is what is committed, and no
-- other session's row is touched.
pub close_cash_session-Closing :
    (session_id user_id declared : ℕ) (s : Session) (r : CashSession) (s' : Session)
    → close_cash_session session_id user_id declared s ≡ (ok r, s')
    → Closing session_id user_id declared s r s'
unfolding close_cash_session get_cash_session
close_cash_session-Closing session_id user_id declared s r s' h =
    elim (Option-cases (find_by_id s.scope session_id s.pending.cash_sessions)) [
      | inl absent ↦ absurd (ground arith)
      | inr (session, e) ↦ elim (Bool-cases (is_open session)) [
        | inr settled ↦ absurd (ground arith)
        | inl open_now ↦
            let ms = till s.scope session_id s.pending.cash_movements in
            let expected = expected_amount session.opening_amount ms in
            elim (Bool-cases (ltb declared numeric_limit && fits_numeric expected)) [
              | inr unfit ↦ absurd (ground arith)
              | inl fits ↦
                  let f = closing user_id s.now declared expected in
                  let scope : s'.scope ≡ s.scope = ground arith in
                  let rows : s'.committed.cash_sessions
                      ≡ update_by_id session_id f s.pending.cash_sessions =
                    ground arith in
                  let updated =
                    find_by_id-update s.scope session_id session_id f s.pending.cash_sessions
                      (λ c. (refl, refl)) in
                  record {
                    session = session;
                    found = e;
                    was_open = open_now;
                    expected = expected;
                    balanced = expected_balanced session.opening_amount ms;
                    row = ground arith;
                    stored =
                        ap₂ (λ scope rows. find_by_id scope session_id rows) scope rows
                        ∙ updated
                        ∙ ground arith;
                    rows = rows;
                  }
            ]
      ]
    ]

-- The tenant has no two sessions that are open.
abbrev pub IsSingleOpen : ℕ → List CashSession → Type 0
IsSingleOpen t sessions = length (open_of t sessions) ≤ 1

open_of-all :
    (t : ℕ) (sessions : List CashSession)
    → all (λ c. not (is_open c && c.tenant_id == t)) sessions ≡ true
    → open_of t sessions ≡ []
open_of-all t [] h = refl
open_of-all t (c ∷ rest) h = ground (arith, open_of-all t rest)

open_of-append :
    (t : ℕ) (sessions : List CashSession) (c : CashSession)
    → open_of t (sessions ++ c ∷ []) ≡ open_of t sessions ++ open_of t (c ∷ [])
open_of-append t sessions c = filter-append (λ c. is_open c && c.tenant_id == t) sessions (c ∷ [])

open_of-closing :
    (t k user_id now declared : ℕ) (expected : ℤ) (sessions : List CashSession)
    → length (open_of t (update_by_id k (closing user_id now declared expected) sessions))
      ≤ length (open_of t sessions)
open_of-closing t k user_id now declared expected [] = omega arith
open_of-closing t k user_id now declared expected (c ∷ rest) =
    ground (arith, open_of-closing t k user_id now declared expected rest)

opened_single :
    (t u : ℕ) (sessions : List CashSession) (r : CashSession)
    → open_of t sessions ≡ []
    → r.tenant_id ≡ t
    → IsSingleOpen u sessions
    → IsSingleOpen u (sessions ++ r ∷ [])
opened_single t u sessions r nothing owner single =
    let count : length (open_of u (sessions ++ r ∷ []))
        ≡ length (open_of u sessions) + length (open_of u (r ∷ [])) =
      ap length (open_of-append u sessions r) ∙ length-append (open_of u sessions) _ in
    let none_before = ap length nothing in
    elim (Bool-cases (t == u)) [
      | inl own ↦
          let same = (==_iff t u).0 own in
          rw count (
            subst (λ v. length (open_of v sessions) + length (open_of v (r ∷ [])) ≤ 1) same
              (ground (arith, none_before)))
      | inr other ↦ rw count (ground arith)
    ]

-- Opening a session for tenant `t` succeeds only if the tenant has none open. Every tenant that had
-- at most one open session still has, and the new session is the tenant's open one.
pub open_cash_session-IsSingleOpen :
    (t user_id amount : ℕ) (s : Session) (r : CashSession) (s' : Session)
    → open_cash_session t user_id amount s ≡ (ok r, s')
    → (u : ℕ) → IsSingleOpen u s.pending.cash_sessions
    → IsSingleOpen u s'.committed.cash_sessions
      × (open_of t s.pending.cash_sessions ≡ [])
      × (open_of t s'.committed.cash_sessions ≡ r ∷ [])
unfolding open_cash_session
open_cash_session-IsSingleOpen t user_id amount s r s' h u single =
    elim (Result-cases (get_open_cash_session s)) [
      | inr (e, s1, failed) ↦ absurd (ground arith)
      | inl (some there, s1, got) ↦ absurd (ground arith)
      | inl (none, s1, got) ↦
          let same = (get_open_cash_session-eq-ok s none s1 got).1 in
          let sessions = s.pending.cash_sessions in
          elim (Bool-cases
            (ltb amount numeric_limit && all (λ c. not (is_open c && c.tenant_id == t)) sessions)) [
              | inr unfit ↦ absurd (ground arith)
              | inl fits ↦
                  let rows : s'.committed.cash_sessions ≡ sessions ++ r ∷ [] = ground arith in
                  let nothing = open_of-all t sessions (ground arith) in
                  let status : r.status ≡ opened = ground arith in
                  let owner : r.tenant_id ≡ t = ground arith in
                  (
                    rw rows (opened_single t u sessions r nothing owner single),
                    nothing,
                    rw rows (open_of-append t sessions r ∙ ground (arith, nothing)),
                  )
            ]
    ]

-- Closing a session never leaves a tenant with more open sessions than it had.
pub close_cash_session-IsSingleOpen :
    (session_id user_id declared : ℕ) (s : Session) (r : CashSession) (s' : Session)
    → close_cash_session session_id user_id declared s ≡ (ok r, s')
    → (u : ℕ)
    → length (open_of u s'.committed.cash_sessions) ≤ length (open_of u s.pending.cash_sessions)
close_cash_session-IsSingleOpen session_id user_id declared s r s' h u =
    let c = close_cash_session-Closing session_id user_id declared s r s' h in
    rw (c.rows)
      (open_of-closing u session_id user_id s.now declared c.expected s.pending.cash_sessions)
