-- ===== src/Treasury/Finality.antt =====
-- A cash session that is closed, over any sequence of its tenant's requests.
use aurapro.Prelude.{
  ℕ, ◌+◌, ◌≡◌, refl, ◌∙◌, sym, subst, String, true, false, Option, none, some, List, [], ◌∷◌, ◌++◌,
  append-nil, arith, ltb, ◌==◌, Option-cases, Bool-cases, inl, inr, ◌⊎◌, all, not, ◌&&◌, ==_iff,
  ==_self,
}
use aurapro.Models.{Database}
use aurapro.Models.Treasury.{
  CashSession, CashMovement, CashMovementType, opened, closed, cash_session_row, cash_movement_row,
}
use aurapro.Session
use aurapro.Session.{Session, Result, ok, err}
use aurapro.Session.Rules.{Result-cases}
use aurapro.Query.{find_by_id, update_by_id}
use aurapro.Query.Laws.{find_by_id-append, find_by_id-update}
use aurapro.Treasury.{
  is_open, get_open_cash_session, open_cash_session, get_cash_session, add_cash_movement,
  add_cash_movement_row, close_cash_session, expected_amount, numeric_limit, fits_numeric,
}
use aurapro.Treasury.Effects.{get_open_cash_session-eq-ok}
use aurapro.Treasury.Rules.{get_open_cash_session-IsUncommitted}
use aurapro.Treasury.Balance.{till, till-append}
use aurapro.Treasury.Sessions.{closing}

-- The requests of tenant `t` on its cash sessions, with what each leaves committed, whether it
-- returned or raised.
pub data Step (t : ℕ) : Database → Database → Type 0 where
  opening :
      (now user_id amount : ℕ) {d : Database}
      → Step t d (open_cash_session t user_id amount (Session.opened t now d)).1.committed
  movement :
      (now k amount : ℕ) (type : CashMovementType) (text : Option String) {d : Database}
      → Step t d (add_cash_movement t k type amount text (Session.opened t now d)).1.committed
  closure :
      (now k user_id declared : ℕ) {d : Database}
      → Step t d (close_cash_session k user_id declared (Session.opened t now d)).1.committed

-- Any number of them.
pub data Steps (t : ℕ) : Database → Database → Type 0 where
  done : {d : Database} → Steps t d d
  step : {d d' d'' : Database} → Step t d d' → Steps t d' d'' → Steps t d d''

-- Session `k` is `c`, and the movements in it are `ms`.
abbrev pub Holds : ℕ → ℕ → CashSession → List CashMovement → Database → Type 0
Holds t k c ms d =
    (find_by_id (some t) k d.cash_sessions ≡ some c) × (till (some t) k d.cash_movements ≡ ms)

abbrev opening_row : ℕ → ℕ → ℕ → ℕ → ℕ → CashSession
opening_row id t now user_id amount = record {
  id = id;
  created_at = now;
  tenant_id = t;
  opening_amount = amount;
  opened_by_user_id = some user_id;
  status = opened;
  closed_at = none;
  closed_by_user_id = none;
  closing_amount_declared = none;
  closing_amount_expected = none;
}

abbrev movement_row : ℕ → ℕ → ℕ → ℕ → CashMovementType → ℕ → Option String → CashMovement
movement_row id t now k type amount text = record {
  id = id;
  created_at = now;
  tenant_id = t;
  cash_session_id = k;
  type = type;
  amount = amount;
  description = text;
  sale_id = none;
}

open_cash_session-cases :
    (t now user_id amount : ℕ) (d : Database)
    → ((open_cash_session t user_id amount (Session.opened t now d)).1.committed ≡ d)
      ⊎ ((r : CashSession) × ((open_cash_session t user_id amount
              (Session.opened t now d)).1.committed
            ≡ record d { next_id = d.next_id + 1; cash_sessions = d.cash_sessions ++ r ∷ [] }))
unfolding open_cash_session
open_cash_session-cases t now user_id amount d =
    let s = Session.opened t now d in
    elim (Result-cases (get_open_cash_session s)) [
      | inr (e, s1, failed) ↦ inl (
          rw failed (
            subst (λ (z : Result (Option CashSession) × Session). z.1.committed ≡ d) failed
              (get_open_cash_session-IsUncommitted.committed s)))
      | inl (some there, s1, got) ↦
          let same = (get_open_cash_session-eq-ok s (some there) s1 got).1 in
          inl (rw got (rw same refl))
      | inl (none, s1, got) ↦
          let same = (get_open_cash_session-eq-ok s none s1 got).1 in
          elim (Bool-cases (
            ltb amount numeric_limit
            && all (λ c. not (is_open c && c.tenant_id == t)) d.cash_sessions)) [
              | inr unfit ↦ inl (rw got (rw same (rw unfit refl)))
              | inl fits ↦
                  inr (opening_row d.next_id t now user_id amount, rw got (rw same (rw fits refl)))
            ]
    ]

add_cash_movement-cases :
    (t now k amount : ℕ) (type : CashMovementType) (text : Option String) (d : Database)
    → ((add_cash_movement t k type amount text (Session.opened t now d)).1.committed ≡ d)
      ⊎ ((c : CashSession) × (m : CashMovement) × (find_by_id (some t) k d.cash_sessions ≡ some c)
          × (is_open c ≡ true)
          × (m.tenant_id ≡ t)
          × (m.cash_session_id ≡ k)
          × ((add_cash_movement t k type amount text (Session.opened t now d)).1.committed
              ≡ record d { next_id = d.next_id + 1; cash_movements = d.cash_movements ++ m ∷ [] }))
unfolding add_cash_movement get_cash_session add_cash_movement_row
add_cash_movement-cases t now k amount type text d =
    elim (Option-cases (find_by_id (some t) k d.cash_sessions)) [
      | inl absent ↦ inl (rw absent refl)
      | inr (c, found) ↦ elim (Bool-cases (is_open c)) [
        | inr settled ↦ inl (rw found (rw settled refl))
        | inl open_now ↦ elim (Bool-cases (ltb 0 amount && ltb amount numeric_limit)) [
          | inr unfit ↦ inl (rw found (rw open_now (rw unfit refl)))
          | inl fits ↦ inr (
            c,
            movement_row d.next_id t now k type amount text,
            found,
            open_now,
            refl,
            refl,
            rw found (rw open_now (rw fits refl)),
          )
        ]
      ]
    ]

close_cash_session-cases :
    (t now k user_id declared : ℕ) (d : Database)
    → ((close_cash_session k user_id declared (Session.opened t now d)).1.committed ≡ d)
      ⊎ ((c : CashSession) × (find_by_id (some t) k d.cash_sessions ≡ some c)
          × (is_open c ≡ true)
          × ((close_cash_session k user_id declared (Session.opened t now d)).1.committed
              ≡ record d {
                cash_sessions =
                    update_by_id k
                      (closing user_id now declared
                        (expected_amount c.opening_amount (till (some t) k d.cash_movements)))
                      d.cash_sessions;
              }))
unfolding close_cash_session get_cash_session
close_cash_session-cases t now k user_id declared d =
    elim (Option-cases (find_by_id (some t) k d.cash_sessions)) [
      | inl absent ↦ inl (rw absent refl)
      | inr (c, found) ↦ elim (Bool-cases (is_open c)) [
        | inr settled ↦ inl (rw found (rw settled refl))
        | inl open_now ↦
            let ms = till (some t) k d.cash_movements in
            elim (Bool-cases
              (ltb declared numeric_limit && fits_numeric (expected_amount c.opening_amount ms))) [
                | inr unfit ↦ inl (rw found (rw open_now (rw unfit refl)))
                | inl fits ↦ inr (c, found, open_now, rw found (rw open_now (rw fits refl)))
              ]
      ]
    ]

-- What an open session is, a closed one is not.
other_key :
    (t j k : ℕ) (c open_one : CashSession) (d : Database)
    → find_by_id (some t) k d.cash_sessions ≡ some c
    → c.status ≡ closed
    → find_by_id (some t) j d.cash_sessions ≡ some open_one
    → is_open open_one ≡ true
    → (j == k) ≡ false
other_key t j k c open_one d found settled found_open open_now = elim (Bool-cases (j == k)) [
  | inr other ↦ other
  | inl same ↦
      let key = (==_iff j k).0 same in
      let found' =
        subst (λ z. find_by_id (some t) z d.cash_sessions ≡ some open_one) key found_open in
      absurd (ground arith)
]

Step-Holds :
    (t k : ℕ) (c : CashSession) (ms : List CashMovement)
    → c.status ≡ closed
    → {d d' : Database} → Step t d d'
    → Holds t k c ms d
    → Holds t k c ms d'
Step-Holds t k c ms settled (opening now user_id amount {d}) h =
    elim (open_cash_session-cases t now user_id amount d) [
      | inl same ↦ subst (Holds t k c ms) (sym same) h
      | inr (r, after) ↦
          subst (Holds t k c ms) (sym after)
            (find_by_id-append (some t) k d.cash_sessions r c h.0, h.1)
    ]
Step-Holds t k c ms settled (movement now j amount type text {d}) h =
    elim (add_cash_movement-cases t now j amount type text d) [
      | inl same ↦ subst (Holds t k c ms) (sym same) h
      | inr (o, m, found, open_now, owner, key, after) ↦
          let other = other_key t j k c o d h.0 settled found open_now in
          subst (Holds t k c ms) (sym after) (
            h.0,
            till-append (some t) k d.cash_movements m (rw owner (==_self t))
                ∙ rw (key, other, append-nil) (h.1),
          )
    ]
Step-Holds t k c ms settled (closure now j user_id declared {d}) h =
    elim (close_cash_session-cases t now j user_id declared d) [
      | inl same ↦ subst (Holds t k c ms) (sym same) h
      | inr (o, found, open_now, after) ↦
          let other = other_key t j k c o d h.0 settled found open_now in
          let expected = expected_amount o.opening_amount (till (some t) j d.cash_movements) in
          subst (Holds t k c ms) (sym after) (
            find_by_id-update (some t) k j (closing user_id now declared expected) d.cash_sessions
                  (λ r. (refl, refl))
                ∙ rw other (h.0),
            h.1,
          )
    ]

-- A cash session that is closed is final: if tenant `t` sees session `k`, and it is closed, then
-- after any number of the tenant's requests to open and close sessions and to add movements to them,
-- whether they succeed or not, its row is the same, with what was declared and expected, and so are
-- its movements.
pub closed_session_is_final :
    (t k : ℕ) (c : CashSession) (ms : List CashMovement) {d d' : Database}
    → c.status ≡ closed
    → Holds t k c ms d
    → Steps t d d'
    → Holds t k c ms d'
closed_session_is_final t k c ms settled h done = h
closed_session_is_final t k c ms settled h (step first rest) =
    closed_session_is_final t k c ms settled (Step-Holds t k c ms settled first h) rest
