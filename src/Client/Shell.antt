-- ===== src/Client/Shell.antt =====
-- `App` in client/frontend/src/App.tsx, the country behind the screens and the size of the window,
-- and `DevicesScreen` in client/frontend/src/screens/DevicesScreen.tsx.
use proxy_redirector.Prelude.{
  ℕ, ◌+◌, ◌-◌, ◌≡◌, ◌≤◌, max, Option, none, some, List, [], ◌∷◌, All, arith,
}
use proxy_redirector.Text.{Text}

pub data Tab : Type 0 where
  home devices rotation settings : Tab

pub record Shell : Type 0 where
  pub active_tab : Tab
  pub proxy_country : Text
  pub measured : Option ℕ

-- `poll`: a call that fails, a missing proxy and a missing country are `none`.
unfoldable pub poll_country : Option Text → Shell → Shell
poll_country none s = record s { proxy_country = [] }
poll_country (some c) s = record s { proxy_country = c }

-- The loop over the heights of the screens
abbrev pub tallest : ℕ → List ℕ → ℕ
tallest h [] = h
tallest h (x ∷ xs) = tallest (max h x) xs

-- `finalHeight`
unfoldable pub final_height : List ℕ → ℕ
final_height hs = max (tallest 0 hs + 48 + 76 + 10) 500

-- The effect that measures once; `measured` keeps the height that was set.
unfoldable pub measure : List ℕ → Shell → Shell
unfolding final_height
measure hs s = elim s.measured [
  | none ↦ record s { measured = some (final_height hs) }
  | some h ↦ s
]

pub record Device : Type 0 where
  pub ip : Text
  pub name : Text

-- The rows of `DevicesScreen`; `kicked` are the calls of `KickDevice`, the newest first.
pub record DeviceList : Type 0 where
  pub rows : List Device
  pub kicked : List Text

-- How `GetConnectedDevices` ends: it fails, or answers a list or nothing.
pub data DeviceReply : Type 0 where
  fails nothing : DeviceReply
  listed : List Device → DeviceReply

-- `fetchDevices`
unfoldable pub fetch_devices : DeviceReply → DeviceList → DeviceList
fetch_devices fails d = d
fetch_devices nothing d = record d { rows = [] }
fetch_devices (listed ds) d = record d { rows = ds }

-- `handleKick`: if the call of `KickDevice` rejects, the list is not fetched.
unfoldable pub handle_kick : Option DeviceReply → Text → DeviceList → DeviceList
unfolding fetch_devices
handle_kick none ip d = record d { kicked = ip ∷ d.kicked }
handle_kick (some reply) ip d = fetch_devices reply (record d { kicked = ip ∷ d.kicked })

le-tallest : (h : ℕ) (hs : List ℕ) → h ≤ tallest h hs
le-tallest h [] = omega arith
le-tallest h (x ∷ xs) = omega (arith, le-tallest (max h x) xs)

All-tallest : (h : ℕ) (hs : List ℕ) → All (λ x. x ≤ tallest h hs) hs
All-tallest h [] = tt
All-tallest h (x ∷ xs) = (omega (arith, le-tallest (max h x) xs), All-tallest (max h x) xs)

tallest_least : (h k : ℕ) (hs : List ℕ) → h ≤ k → All (λ x. x ≤ k) hs → tallest h hs ≤ k
tallest_least h k [] le all = le
tallest_least h k (x ∷ xs) le all = tallest_least (max h x) k xs (ground (arith, all.0)) all.1

fits : (m : ℕ) (hs : List ℕ) → All (λ x. x ≤ m) hs → All (λ x. x + 134 ≤ max (m + 134) 500) hs
fits m [] h = tt
fits m (x ∷ xs) h = (omega (arith, h.0), fits m xs h.1)

below : (k : ℕ) (hs : List ℕ) → All (λ x. x + 134 ≤ k) hs → All (λ x. x ≤ k - 134) hs
below k [] h = tt
below k (x ∷ xs) h = (omega (arith, h.0), below k xs h.1)

-- The window is at least 500 high, at least 134 higher than every screen, and the least such height.
pub final_height_lem :
    (hs : List ℕ)
    → (500 ≤ final_height hs)
      × All (λ x. x + 134 ≤ final_height hs) hs
      × ((k : ℕ) → 500 ≤ k → All (λ x. x + 134 ≤ k) hs → final_height hs ≤ k)
unfolding final_height
final_height_lem hs =
    let sum : tallest 0 hs + 48 + 76 + 10 ≡ tallest 0 hs + 134 = omega arith in
    rw (sum) (
      omega arith,
      fits (tallest 0 hs) hs (All-tallest 0 hs),
      λ k min_height all.
          omega (arith, tallest_least 0 (k - 134) hs (omega arith) (below k hs all)),
    )
