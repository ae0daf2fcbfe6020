-- ===== src/Notify/Banned.antt =====
-- services/notification-service/internal/worker/worker.go: the recipients that the file of
-- preferences blocks on a channel, read off the file, and what `loadNotificationPrefs` makes of it.
use mathlib.Core.List.{Memᴰ}
use mathlib.Core.List.Memᴰ.{not-nil}
use qms.Base.{
  String, true, false, not, Option, none, some, List, [], ◌∷◌, map, ◌=?◌, ◌≡◌, ◌≢◌, refl, sym, ap,
  ◌∙◌, ◌⊎◌, inl, inr, if◌then◌else◌, maybe, subst, find, any, select, any-mem, eq_iff, eq_refl,
  Bool-cases, Option-cases,
}
use qms.Notify.Channels.{with_channel, load_channels, load_notification_prefs, allow}

-- The first list, if it is not empty.
abbrev or_else : List String → List String → List String
or_else [] ys = ys
or_else (x ∷ xs) ys = x ∷ xs

or_else_assoc : (xs ys zs : List String) → or_else (or_else xs ys) zs ≡ or_else xs (or_else ys zs)
or_else_assoc [] ys zs = refl
or_else_assoc (x ∷ xs) ys zs = refl

or_else_empty : (xs : List String) → or_else xs [] ≡ xs
or_else_empty [] = refl
or_else_empty (x ∷ xs) = refl

abbrev listed_for : String → List (String × List String) → List String
listed_for k blocked = maybe (find (λ (b : String × List String). b.0 =? k) blocked) [] (λ b. b.1)

pub differs : (x : String) → (x =? "") ≡ false → x ≢ ""
differs x h e = cc (h, (eq_iff x "").1 e)

module _ (trim_space to_lower : String → String) where
  abbrev pub channel_name : String → String
  channel_name channel = to_lower (trim_space channel)

  abbrev trimmed : List String → List String
  trimmed rs = select (λ (r : String). not (r =? "")) (map trim_space rs)

  -- The recipients in the last entry of the file for a channel that names any.
  abbrev pub banned : String → List (String × List String) → List String
  banned k [] = []
  banned k ((channel, rs) ∷ more) =
      or_else (banned k more) (if channel_name channel =? k then trimmed rs else [])

  -- The file, if it could be read, does not ban the recipient on the channel.
  abbrev pub IsOpen : Option (List (String × List String)) → String → String → Type 0
  IsOpen none channel recipient = Unit {0}
  IsOpen (some data_) channel recipient =
      (channel_name channel ≡ "") ⊎ ¬ Memᴰ recipient (banned (channel_name channel) data_)

  put :
      (k name : String) (rs : List String) (acc : List (String × List String))
      → listed_for k (with_channel trim_space to_lower name rs acc)
        ≡ or_else (if name =? k then rs else []) (listed_for k acc)
  unfolding find maybe
  put k name [] acc = elim (Bool-cases (name =? k)) [ inl t ↦ rw t refl | inr t ↦ rw t refl ]
  put k name (r ∷ rs) acc = elim (Bool-cases (name =? k)) [ inl t ↦ rw t refl | inr t ↦ rw t refl ]

  -- One entry more.
  added :
      (k : String) (channel : String) (rs : List String) (acc : List (String × List String))
      → k ≢ ""
      → listed_for k (load_channels trim_space to_lower ((channel, rs) ∷ []) acc)
        ≡ or_else (if channel_name channel =? k then trimmed rs else []) (listed_for k acc)
  unfolding load_channels
  added k channel rs acc named = elim (Bool-cases (channel_name channel =? "")) [
    | inl t ↦ elim (Bool-cases (channel_name channel =? k)) [
      | inl e ↦ absurd (
          named
            (sym ((eq_iff (channel_name channel) k).0 e) ∙ (eq_iff (channel_name channel) "").0 t))
      | inr e ↦ rw (t, e) refl
    ]
    | inr t ↦ rw t (put k (channel_name channel) (trimmed rs) acc)
  ]

  listed :
      (k : String) (data_ acc : List (String × List String))
      → k ≢ ""
      → listed_for k (load_channels trim_space to_lower data_ acc)
        ≡ or_else (banned k data_) (listed_for k acc)
  unfolding load_channels
  listed k [] acc named = refl
  listed k ((channel, rs) ∷ more) acc named =
      listed k more _ named
      ∙ ap (or_else (banned k more)) (added k channel rs acc named)
      ∙ sym (or_else_assoc (banned k more) _ _)

  -- The list that `allow` looks up does not hold the recipient.
  closed :
      (data_ : List (String × List String)) (name recipient : String)
      → name ≢ ""
      → maybe
          (find
            (λ (b : String × List String). b.0 =? name)
            (load_channels trim_space to_lower data_ []))
          true
          (λ b. not (any (λ (r : String). r =? recipient) b.1))
        ≡ true
      → ¬ Memᴰ recipient (banned name data_)
  unfolding maybe find
  closed data_ name recipient named h m =
      let blocked = load_channels trim_space to_lower data_ [] in
      let same : listed_for name blocked ≡ banned name data_ =
        listed name data_ [] named ∙ or_else_empty (banned name data_) in
      let n : Memᴰ recipient (listed_for name blocked) = subst (Memᴰ recipient) (sym same) m in
      elim (Option-cases (find (λ (b : String × List String). b.0 =? name) blocked)) [
        | inl e ↦ not-nil (rw e at n)
        | inr (b, e) ↦
            let k =
              any-mem (λ (r : String). r =? recipient) b.1 recipient (rw e at n)
                (eq_refl recipient) in
            cc (rw (e, k) at h)
      ]

  pub allow-IsOpen :
      (file : Option (List (String × List String))) (channel recipient : String)
      → recipient ≢ ""
      → allow trim_space to_lower
          (load_notification_prefs trim_space to_lower file)
          channel
          recipient
        ≡ true
      → IsOpen file channel recipient
  unfolding allow load_notification_prefs maybe
  allow-IsOpen none channel recipient h k = tt
  allow-IsOpen (some data_) channel recipient h k =
      let name = channel_name channel in
      elim (Bool-cases (name =? "")) [
        | inl t ↦ inl ((eq_iff name "").0 t)
        | inr t ↦ inr (
            closed data_ name recipient (differs name t) (elim (Bool-cases (recipient =? "")) [
              | inl e ↦ absurd (h ((eq_iff recipient "").0 e))
              | inr e ↦ rw (t, e) at k
            ]))
      ]
