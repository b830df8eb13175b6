-- ===== src/Gmail/Triples.antt =====
-- Triples for the methods of src/inboxlume/providers/gmail_quarantine.py and gmail_finalizer.py: what a
-- method sends, whatever it returns; what it remembers; and what holds after it returned.
use inboxlume.Base.{
  OnSome, OnOk, OnOk-intro, OnOk-weaken, ◌≡◌, refl, Bool, true, false, List, ◌∷◌, ok, raise, Result,
  Error, if◌then◌else◌,
}
use inboxlume.Gmail.Session.{
  Request, Session, Action, pure, fail, lift, check, remembered, remember, sent_so_far, send, ◌>>=◌,
}

-- What was sent after `old`, each request after those before it.
pub data Sent (P : Request → List Request → Type 0) (old : List Request)
    : List Request → Type 0 where
  unsent : Sent P old old
  sends : {r : Request} {rs : List Request} → P r rs → Sent P old rs → Sent P old (r ∷ rs)

Sent-trans :
    {P : Request → List Request → Type 0} {old mid new : List Request}
    → Sent P old mid
    → Sent P mid new
    → Sent P old new
Sent-trans h unsent = h
Sent-trans h (sends p k) = sends p (Sent-trans h k)

module _ {C : Type 0} (P : Request → List Request → Type 0) (I : C → Type 0) where
  -- The outcome of a method that began at `s`.
  abbrev pub Good :
      {A : Type 0} → Session C → (A → Session C → Type 0) → Result A × Session C → Type 0
  Good s Post (r, s') = OnSome I s'.cache × Sent P s.sent s'.sent × OnOk (λ a. Post a s') r

  pub record Triple {A : Type 0} (Pre : Session C → Type 0) (m : Action C A)
      (Post : A → Session C → Type 0) : Type 0 where
    pub run : (s : Session C) → OnSome I s.cache → Pre s → Good s Post (m s)

module _ {C : Type 0} {P : Request → List Request → Type 0} {I : C → Type 0} where
  module _ {A : Type 0} where
    pub Triple-pure : {Post : A → Session C → Type 0} (a : A) → Triple P I (Post a) (pure a) Post
    Triple-pure a = record { run = λ s c p. (c, unsent, p) }

    pub Triple-fail :
        {Pre : Session C → Type 0} {Post : A → Session C → Type 0} (e : Error)
        → Triple P I Pre (fail e) Post
    Triple-fail e = record { run = λ s c p. (c, unsent, tt) }

    pub Triple-lift :
        {Pre : Session C → Type 0} {Post : A → Session C → Type 0} (r : Result A)
        → ((s : Session C) (a : A) → r ≡ ok a → Pre s → Post a s)
        → Triple P I Pre (lift r) Post
    Triple-lift {Post = Post} r f = record {
      run = λ s c p. (c, unsent, OnOk-intro (λ a. Post a s) r (λ a e. f s a e p));
    }

    pub Triple-weaken :
        {Pre Weaker : Session C → Type 0} {Mid Post : A → Session C → Type 0} {m : Action C A}
        → ((s : Session C) → Pre s → Weaker s)
        → ((a : A) (s : Session C) → Mid a s → Post a s)
        → Triple P I Weaker m Mid
        → Triple P I Pre m Post
    Triple-weaken {Mid = Mid} {Post = Post} {m = m} f g t = record {
      run = λ s c p.
          let good = t.run s c (f s p) in
          (
            good.0,
            good.1,
            OnOk-weaken (λ a. Mid a (m s).1) (λ a. Post a (m s).1) (m s).0 (λ a. g a (m s).1)
                good.2,
          );
    }

    pub Triple-given :
        {K : Type 0} {Pre : Session C → Type 0} {Post : A → Session C → Type 0} {m : Action C A}
        → (K → Triple P I Pre m Post)
        → Triple P I (λ s. K × Pre s) m Post
    Triple-given t = record { run = λ s c p. (t p.0).run s c p.1 }

    pub Triple-if :
        {Pre : Session C → Type 0} {Post : A → Session C → Type 0} {m k : Action C A} (b : Bool)
        → (b ≡ true → Triple P I Pre m Post)
        → (b ≡ false → Triple P I Pre k Post)
        → Triple P I Pre (if b then m else k) Post
    Triple-if true f g = f refl
    Triple-if false f g = g refl

  pub Triple-check :
      {Pre : Session C → Type 0} (b : Bool) (e : Error)
      → Triple P I Pre (check b e) (λ _ s. (b ≡ true) × Pre s)
  Triple-check true e = record { run = λ s c p. (c, unsent, (refl, p)) }
  Triple-check false e = record { run = λ s c p. (c, unsent, tt) }

  pub Triple-remembered :
      {Pre : Session C → Type 0} → Triple P I Pre remembered (λ o s. OnSome I o × Pre s)
  Triple-remembered = record { run = λ s c p. (c, unsent, (c, p)) }

  pub Triple-remember :
      (Pre : List Request → Type 0) (c : C)
      → ((h : List Request) → Pre h → I c)
      → Triple P I (λ s. Pre s.sent) (remember c) (λ _ s. Pre s.sent)
  Triple-remember Pre c i = record { run = λ s _ p. (i s.sent p, unsent, p) }

  pub Triple-history :
      {Pre : Session C → Type 0} → Triple P I Pre sent_so_far (λ h s. (h ≡ s.sent) × Pre s)
  Triple-history = record { run = λ s c p. (c, unsent, (refl, p)) }

  pub Triple-send :
      (Pre : List Request → Type 0) (r : Request)
      → ((h : List Request) → Pre h → P r h)
      → Triple P I (λ s. Pre s.sent) (send r) (λ _ s. (h : List Request) × (s.sent ≡ r ∷ h) × Pre h)
  Triple-send Pre r f = record { run = λ s c p. (c, sends (f s.sent p) unsent, (s.sent, refl, p)) }

  module _ {A B : Type 0} {Mid : A → Session C → Type 0} {Post : B → Session C → Type 0}
      {f : A → Action C B} where
    bind_step :
        (s : Session C) (x : Result A × Session C)
        → Good P I s Mid x
        → ((a : A) → Triple P I (Mid a) (f a) Post)
        → Good P I s Post (elim x.0 [ ok a ↦ f a x.1 | raise e ↦ (raise e, x.1) ])
    bind_step s (ok a, s1) (c, h, q) t =
        let good = (t a).run s1 c q in (good.0, Sent-trans h good.1, good.2)
    bind_step s (raise e, s1) (c, h, q) t = (c, h, tt)

    pub Triple-bind :
        {Pre : Session C → Type 0} {m : Action C A}
        → Triple P I Pre m Mid
        → ((a : A) → Triple P I (Mid a) (f a) Post)
        → Triple P I Pre (m >>= f) Post
    Triple-bind {m = m} t u = record { run = λ s c p. bind_step s (m s) (t.run s c p) u }
