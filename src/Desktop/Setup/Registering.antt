-- ===== src/Desktop/Setup/Registering.antt =====
-- What the client is told once the engine has answered.
use open_transcribe_mcp.Base.{◌≡◌, refl, ap, sym, ◌∙◌, true, false, Option, none, some}
use open_transcribe_mcp.Domain.Audio.{is_given}
use open_transcribe_mcp.Desktop.Errors.{Try, done, raised, desktop, os_error, exception}
use open_transcribe_mcp.Desktop.Journal.{intended}
use open_transcribe_mcp.Desktop.Clients.{
  ClientAdapter, ServerRegistration, RegistrationPlan, ExistingEntry,
}
use open_transcribe_mcp.Desktop.Setup.{SetupPlan, ApplyOutcome, World, SetupService}
use open_transcribe_mcp.Desktop.Setup.Progress.{
  Session, Progress, returned, onward, ◌>>>◌, Ends, Ends-onward, Ends-map, Ends-go, Ends-returned,
}
use open_transcribe_mcp.Desktop.Setup.Steps.{attempt, noted, owned, save_journal, with_client}
use open_transcribe_mcp.Desktop.Setup.Apply.{register, registered, client_applied}
use open_transcribe_mcp.Desktop.Setup.Frame.{IsSaved, save_journal-IsSaved}
use open_transcribe_mcp.Desktop.Setup.Verified.{IsVerified, Failed}
use open_transcribe_mcp.Desktop.Setup.Saving.{Sound, IsReady, Committed, IsReady-saved}

module _ {S : Type 0} (service : SetupService) (p : SetupPlan) (client : S) where
  -- The client was told the plan, and what it holds was read back; or there was nothing to tell.
  unfoldable pub IsTold :
      Option (ClientAdapter S)
      → Option RegistrationPlan
      → Option ServerRegistration
      → ApplyOutcome
      → World S
      → Type 0
  IsTold (some adapter) (some registration_plan) (some r) o w =
      (adapter.apply registration_plan client ≡ (w.client, done tt))
      × (adapter.readback r.name w.client ≡ done o.readback)
      × (o.registered ≡ true)
  IsTold _ _ _ o w = (w.client ≡ client) × (o.registered ≡ false)

  abbrev pub Registered :
      Option (ClientAdapter S)
      → Option RegistrationPlan
      → Option ServerRegistration
      → ApplyOutcome
      → Session S
      → Type 0
  Registered adapter registration_plan r o s =
      Sound o × IsReady service p s.world × IsTold adapter registration_plan r o s.world

  abbrev pub ReadyButFailed : ApplyOutcome → Session S → Type 0
  ReadyButFailed o s = Failed o × IsReady service p s.world

  abbrev pub Registering :
      Option (ClientAdapter S)
      → Option RegistrationPlan
      → Option ServerRegistration
      → Session S × Progress ApplyOutcome
      → Type 0
  Registering adapter registration_plan r q =
      Ends (Registered adapter registration_plan r) ReadyButFailed
        (λ f s. IsReady service p s.world) q.0 q.1

  pub registered-Registering :
      (adapter : ClientAdapter S) (registration_plan : RegistrationPlan) (r : ServerRegistration)
      (o : ApplyOutcome) (entry : Option ExistingEntry) (s : Session S)
      → Sound o
      → IsReady service p s.world
      → adapter.apply registration_plan client ≡ (s.world.client, done tt)
      → adapter.readback r.name s.world.client ≡ done entry
      → Registering
          (some adapter)
          (some registration_plan)
          (some r)
          (registered service adapter r o entry s)
  unfolding registered noted owned IsTold
  registered-Registering adapter registration_plan r o entry s sound ready told back =
      Ends-onward ReadyButFailed (λ f s'. IsReady service p s'.world)
        (λ u s'. IsSaved s.world s'.world)
        (Registered (some adapter) (some registration_plan) (some r)) _ _ _
        (Ends-map _ _ _ _ _ _ _ _ (save_journal-IsSaved service _) (λ u s' h. h)
          (λ o s' h. absurd h)
          (λ f s' h. (IsReady-saved service p client) s.world s'.world h ready))
        (λ u s' h.
          Ends-go (Registered (some adapter) (some registration_plan) (some r)) ReadyButFailed
            (λ f s'. IsReady service p s'.world) _ s'
            (
              sound,
              (IsReady-saved service p client) s.world s'.world h ready,
              (
                (told ∙ ap (λ x. (x, done tt)) (sym h.client)),
                (ap (λ x. adapter.readback r.name x) h.client ∙ back),
                refl,
              ),
            ))

  pub readback-Registering :
      (adapter : ClientAdapter S) (registration_plan : RegistrationPlan) (r : ServerRegistration)
      (o : ApplyOutcome) (a : Try (Option ExistingEntry)) (s : Session S)
      → Sound o
      → IsReady service p s.world
      → adapter.apply registration_plan client ≡ (s.world.client, done tt)
      → adapter.readback r.name s.world.client ≡ a
      → Registering
          (some adapter)
          (some registration_plan)
          (some r)
          (attempt s a >>> λ entry s'. registered service adapter r o entry s')
  unfolding attempt onward Ends
  readback-Registering adapter registration_plan r o (raised f) s sound ready told back = ready
  readback-Registering adapter registration_plan r o (done entry) s sound ready told back =
      registered-Registering adapter registration_plan r o entry s sound ready told back

  pub refused-Registering :
      (adapter : Option (ClientAdapter S)) (registration_plan : Option RegistrationPlan)
      (r : Option ServerRegistration) (o : ApplyOutcome) (s : Session S)
      → Failed o
      → IsReady service p s.world
      → Registering adapter registration_plan r
          (save_journal service s >>> λ u s'. (s', returned o))
  refused-Registering adapter registration_plan r o s failed' ready =
      Ends-onward ReadyButFailed (λ f s'. IsReady service p s'.world)
        (λ u s'. IsReady service p s'.world) (Registered adapter registration_plan r) _ _ _
        (Ends-map _ _ _ _ _ _ _ _ (save_journal-IsSaved service s)
          (λ u s' h. (IsReady-saved service p client) s.world s'.world h ready) (λ o s' h. absurd h)
          (λ f s' h. (IsReady-saved service p client) s.world s'.world h ready))
        (λ u s' ready'.
          Ends-returned (Registered adapter registration_plan r) ReadyButFailed
            (λ f s'. IsReady service p s'.world) o s' (failed', ready'))

  pub client_applied-Registering :
      (adapter : ClientAdapter S) (registration_plan : RegistrationPlan) (r : ServerRegistration)
      (o : ApplyOutcome) (q : S × Try (Unit {0})) (s : Session S)
      → Sound o
      → o.registered ≡ false
      → IsReady service p s.world
      → adapter.apply registration_plan client ≡ q
      → Registering
          (some adapter)
          (some registration_plan)
          (some r)
          (client_applied service adapter r o q s)
  unfolding client_applied Ends noted with_client is_given
  client_applied-Registering adapter registration_plan r o (client', raised (desktop e)) s sound
        fresh ready told =
      refused-Registering (some adapter) (some registration_plan) (some r) _ _
        (sound.0, refl, fresh) (record { saved = ready.saved; answered = ready.answered })
  client_applied-Registering adapter registration_plan r o (client', raised os_error) s sound fresh
        ready told =
      record { saved = ready.saved; answered = ready.answered }
  client_applied-Registering adapter registration_plan r o (client', raised (exception name)) s
        sound fresh ready told =
      record { saved = ready.saved; answered = ready.answered }
  client_applied-Registering adapter registration_plan r o (client', done u) s sound fresh ready
        told =
      readback-Registering adapter registration_plan r o (adapter.readback r.name client')
        (with_client service client' s) sound
        (record { saved = ready.saved; answered = ready.answered }) told refl

  pub register-Registering :
      (adapter : Option (ClientAdapter S)) (registration_plan : Option RegistrationPlan)
      (r : Option ServerRegistration) (o : ApplyOutcome) (s : Session S)
      → IsVerified service (Committed service p client) p o s
      → Registering adapter registration_plan r (register service adapter registration_plan r o s)
  unfolding register Ends IsTold noted Committed
  register-Registering none registration_plan r o s v = (
    (v.saved, v.engine, v.failure),
    record { saved = v.world.0; answered = v.answered },
    (v.world.1, v.registered),
  )
  register-Registering (some adapter) none r o s v = (
    (v.saved, v.engine, v.failure),
    record { saved = v.world.0; answered = v.answered },
    (v.world.1, v.registered),
  )
  register-Registering (some adapter) (some registration_plan) none o s v = (
    (v.saved, v.engine, v.failure),
    record { saved = v.world.0; answered = v.answered },
    (v.world.1, v.registered),
  )
  register-Registering (some adapter) (some registration_plan) (some r) o s v =
      client_applied-Registering adapter registration_plan r o
        (adapter.apply registration_plan s.world.client) (noted service "client" intended none s)
        (v.saved, v.engine, v.failure) v.registered
        (record { saved = v.world.0; answered = v.answered })
        (ap (λ x. adapter.apply registration_plan x) (sym v.world.1))
