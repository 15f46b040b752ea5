-- ===== src/Hub/Clients.antt =====
-- The clients of the hub in internal/interfaces/http/ws/hub.go and their channels.
use backend_golang_task.Prelude.{
  ℕ, ◌≤◌, ◌<◌, ◌≡◌, refl, sym, ap, ◌∙◌, subst, ◌==◌, Bool, true, false, if◌then◌else◌, List, [],
  ◌∷◌, arith,
}
use backend_golang_task.Hub.{Channel, set_channel, has, delete}

module _ {A : Type 0} where
  -- Each client once, below a bound, with an open channel.
  abbrev pub Open : ℕ → List ℕ → (ℕ → Channel A) → Type 0
  Open bound [] channels = Unit
  Open bound (c ∷ cs) channels = (c < bound) × ((channels c).closed ≡ false) × Open c cs channels

  -- What is done to one channel does not show at the clients below it.
  pub Open-set_channel :
      (c bound : ℕ) (cs : List ℕ) (channel : Channel A) (channels : ℕ → Channel A)
      → bound ≤ c
      → Open bound cs channels
      → Open bound cs (set_channel c channel channels)
  Open-set_channel c bound [] channel channels above h = tt
  Open-set_channel c bound (d ∷ ds) channel channels above (lt, opened, rest) =
      (lt, ground arith, Open-set_channel c d ds channel channels (omega (arith, above, lt)) rest)

  pub set_channel_closed :
      (c i : ℕ) (channel : Channel A) (channels : ℕ → Channel A)
      → channel.closed ≡ (channels c).closed
      → (set_channel c channel channels i).closed ≡ (channels i).closed
  set_channel_closed c i channel channels same = go (i == c) refl
    where
      go :
          (b : Bool)
          → (i == c) ≡ b
          → (if b then channel else channels i).closed ≡ (channels i).closed
      go true e = same ∙ sym (ap (λ (j : ℕ). (channels j).closed) {x = i} {y = c} (ground arith))
      go false e = refl

  -- Nor does what leaves it open.
  pub Open-closed :
      (bound : ℕ) (cs : List ℕ) (channels channels' : ℕ → Channel A)
      → ((i : ℕ) → (channels' i).closed ≡ (channels i).closed)
      → Open bound cs channels
      → Open bound cs channels'
  Open-closed bound [] channels channels' same h = tt
  Open-closed bound (c ∷ cs) channels channels' same (lt, opened, rest) =
      (lt, same c ∙ opened, Open-closed c cs channels channels' same rest)

  pub Open-bound :
      (c bound : ℕ) (cs : List ℕ) (channels : ℕ → Channel A)
      → c ≤ bound
      → Open c cs channels
      → Open bound cs channels
  Open-bound c bound [] channels le h = tt
  Open-bound c bound (d ∷ ds) channels le (lt, opened, rest) = (omega (arith, le, lt), opened, rest)

  -- The channels from a bound on are untouched.
  abbrev pub SameAbove : ℕ → (ℕ → Channel A) → (ℕ → Channel A) → Type 0
  SameAbove bound channels channels' = (i : ℕ) → bound ≤ i → channels' i ≡ channels i

  pub set_channel-above :
      (c bound : ℕ) (channel : Channel A) (channels : ℕ → Channel A)
      → c < bound
      → SameAbove bound channels (set_channel c channel channels)
  set_channel-above c bound channel channels lt i le = ground arith

  pub then_above :
      (c bound : ℕ) (channels channels₁ channels₂ : ℕ → Channel A)
      → c < bound
      → SameAbove bound channels channels₁
      → SameAbove c channels₁ channels₂
      → SameAbove bound channels channels₂
  then_above c bound channels channels₁ channels₂ lt one two i le =
      two i (omega (arith, lt, le)) ∙ one i le

  -- A client that is in the map is below the bound and open.
  pub has-Open :
      (c bound : ℕ) (cs : List ℕ) (channels : ℕ → Channel A)
      → Open bound cs channels
      → has c cs ≡ true
      → (c < bound) × ((channels c).closed ≡ false)
  has-Open c bound [] channels o e = cc
  has-Open c bound (d ∷ ds) channels (lt, opened, rest) e =
      go (d == c) refl (has-Open c d ds channels rest)
    where
      go :
          (b : Bool)
          → (d == c) ≡ b
          → (has c ds ≡ true → (c < d) × ((channels c).closed ≡ false))
          → (c < bound) × ((channels c).closed ≡ false)
      go true same below =
          subst (λ (i : ℕ). (i < bound) × ((channels i).closed ≡ false)) {x = d} {y = c}
            (ground arith) (lt, opened)
      go false other below =
          let (lt', opened') = below (ground arith) in (omega (arith, lt, lt'), opened')

  -- The clients but one do not see what is done to its channel.
  pub Open-delete_set :
      (c bound : ℕ) (cs : List ℕ) (channel : Channel A) (channels : ℕ → Channel A)
      → Open bound cs channels
      → Open bound (delete c cs) (set_channel c channel channels)
  Open-delete_set c bound [] channel channels h = tt
  Open-delete_set c bound (d ∷ ds) channel channels (lt, opened, rest) =
      go (d == c) refl (Open-delete_set c d ds channel channels rest)
    where
      go :
          (b : Bool)
          → (d == c) ≡ b
          → Open d (delete c ds) (set_channel c channel channels)
          → Open bound (if b then delete c ds else d ∷ delete c ds) (set_channel c channel channels)
      go true same r = Open-bound d bound (delete c ds) _ (omega (arith, lt)) r
      go false other r = (lt, ground (arith, opened, other), r)
