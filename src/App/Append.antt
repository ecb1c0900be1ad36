-- ===== src/App/Append.antt =====
-- The append of `mutate` in internal/app/app.go among the steps of others.
use eventledger.Prelude.{
  ℕ, ◌<◌, ◌≤◌, ◌≡◌, refl, sym, ap, ◌∙◌, ◌≢◌, inl, inr, String, List, [], ◌∷◌, ◌++◌, length,
  length-append, arith, subst, eq_iff, str_eq, Bool-cases,
}
use mathlib.Core.List.{append-nil}
use eventledger.Domain.Errors.{ok, Result-cases}
use eventledger.Domain.Events.{Event, Stamp}
use eventledger.Domain.Account.{Account, blank, replay}
use eventledger.Domain.Decide.{Command, decide, after}
use eventledger.Domain.Sound.{IsLimited, max_version}
use eventledger.Eventstore.Port.{Store, IsEventStore, IsRecorded}
use eventledger.Eventstore.Streams.{length-IsRecorded}
use eventledger.App.{World, append_to, publish}
use eventledger.App.Extends.{Replays, IsAccountStream, Extends, Fits, IsLedger}
use eventledger.App.Grow.{Replays-decide}

pub publish-store :
    (st : Store) (events : List Event) (w : World st) → (publish st events w).store ≡ w.store
unfolding publish
publish-store st [] w = refl
publish-store st (e ∷ events) w = publish-store st events _

module _ {st : Store} (es : IsEventStore st) where
  pub append_to-Extends :
      (id : String) (v : ℕ) (events : List Event) (w : World st)
      → Extends es w (append_to st id v events w).1
  append_to-Extends id v events w j = elim (Result-cases (st.append id v events w.store).0) [
    | inl (x, refused) ↦
        ([], es.append_err w.store id v events x refused j ∙ sym (append-nil (es.stream w.store j)))
    | inr (u, done) ↦
        let ((fs, grown, same), others) = es.append_ok w.store id v events done in
        elim (Bool-cases (str_eq j id)) [
          | inl p ↦
              let here : j ≡ id = (eq_iff j id).0 p in
              (
                fs,
                subst
                    (λ i. es.stream (st.append id v events w.store).1 i ≡ es.stream w.store i ++ fs)
                    (sym here) grown,
              )
          | inr p ↦ (
            [],
            others j (λ e. cc (p, (eq_iff j id).1 e)) ∙ sym (append-nil (es.stream w.store j)),
          )
        ]
  ]

  -- An account that is loaded, and whose stream has the same length when the append is confirmed, is
  -- still what the stream stands for.
  same_stream :
      (v w : World st) (id : String) (a : Account)
      → IsLedger es v
      → Extends es v w
      → st.load id v.store ≡ ok a
      → length (es.stream w.store id) ≡ a.version
      → Replays id (es.stream v.store id) a × (es.stream w.store id ≡ es.stream v.store id)
  same_stream v w id a h grows loaded expected =
      let (some_event, replayed, version) = es.load_ok v.store id a h.valid loaded in
      let (zs, p) = grows id in
      let none_new : length zs ≡ 0 =
        omega (arith, ap length p, length-append (es.stream v.store id) zs) in
      (
        known (h.accounts id) some_event replayed,
        p
            ∙ ap (◌++◌ (es.stream v.store id)) (nil_of_length zs none_new)
            ∙ append-nil (es.stream v.store id),
      )
    where
      nil_of_length : (xs : List Event) → length xs ≡ 0 → xs ≡ []
      nil_of_length [] q = refl
      nil_of_length (x ∷ xs) q = absurd (omega arith)

      known :
          {xs : List Event}
          → IsAccountStream id xs
          → xs ≢ []
          → replay blank xs ≡ ok a
          → Replays id xs a
      known (inl empty) ne q = absurd (ne empty)
      known (inr (b, r)) ne q = subst (Replays id _) (cc (q, r.replayed)) r

  module _ (c : Command) (s : Stamp) (v w : World st) (id : String) (a : Account) (e : Event)
      (limited : IsLimited c) (hv : IsLedger es v) (hw : IsLedger es w) (grows : Extends es v w)
      (loaded : st.load id v.store ≡ ok a) (decided : decide c s a ≡ ok e)
      (fits : Fits es (append_to st id a.version (e ∷ []) w).1) where
    -- The version of the loaded account is that of a beginning of the stream.
    known_version : a.version ≤ length (es.stream w.store id)
    known_version =
        let (zs, p) = grows id in
        omega (
          arith,
          (es.load_ok v.store id a hv.valid loaded).2,
          ap length p,
          length-append (es.stream v.store id) zs,
        )

    -- A confirmed append: the stream stood for the loaded account, and now stands for the account
    -- that the command aimed at.
    pub confirmed :
        (st.append id a.version (e ∷ []) w.store).0 ≡ ok tt
        → (fs : List Event) × (es.stream (append_to st id a.version (e ∷ []) w).1.store id
            ≡ es.stream w.store id ++ fs)
          × IsRecorded (e ∷ []) fs
          × Replays id (es.stream w.store id) a
          × Replays id (es.stream w.store id ++ fs) (after c a)
    confirmed done =
        let ((fs, grown, same), others) = es.append_ok w.store id a.version (e ∷ []) done in
        let expected = es.append_expected w.store id a.version e [] hw.valid known_version done in
        let (r, unchanged) = same_stream v w id a hv grows loaded expected in
        let r' : Replays id (es.stream w.store id) a =
          subst (λ xs. Replays id xs a) (sym unchanged) r in
        let room : length (es.stream w.store id) < max_version = omega (
          arith,
          fits id,
          ap length grown,
          length-append (es.stream w.store id) fs,
          length-IsRecorded (e ∷ []) fs same,
        ) in
        (
          fs,
          grown,
          same,
          r',
          Replays-decide c s id (es.stream w.store id) fs a e r' limited room decided same,
        )

    -- What is left by the append of an event that was decided for a loaded account.
    pub append_to-IsLedger : IsLedger es (append_to st id a.version (e ∷ []) w).1
    append_to-IsLedger = record {
      valid = es.append-Valid w.store id a.version (e ∷ []) hw.valid known_version;
      accounts = λ j. elim (Result-cases (st.append id a.version (e ∷ []) w.store).0) [
        | inl (x, refused) ↦
            subst (IsAccountStream j)
              (sym (es.append_err w.store id a.version (e ∷ []) x refused j)) (hw.accounts j)
        | inr (u, done) ↦
            let (fs, grown, same, r, r') = confirmed done in
            let (rest, others) = es.append_ok w.store id a.version (e ∷ []) done in
            elim (Bool-cases (str_eq j id)) [
              | inl p ↦
                  let here : j ≡ id = (eq_iff j id).0 p in
                  subst
                    (λ i.
                      IsAccountStream i
                        (es.stream (append_to st id a.version (e ∷ []) w).1.store i))
                    (sym here) (subst (IsAccountStream id) (sym grown) (inr (after c a, r')))
              | inr p ↦
                  subst (IsAccountStream j) (sym (others j (λ q. cc (p, (eq_iff j id).1 q))))
                    (hw.accounts j)
            ]
      ];
    }
