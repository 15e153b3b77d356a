-- ===== src/Saas/Accounts/Laws.antt =====
-- A user that has registered can log in, and nobody else can take the address.
use proxy_redirector.Prelude.{ℕ, ◌≡◌, refl, none, some, []}
use proxy_redirector.Text.{Text}
use proxy_redirector.Saas.Domain.{User, user}
use proxy_redirector.Saas.Tokens.{Service, mint}
use proxy_redirector.Saas.Accounts.{
  UserTable, Hasher, DeviceMeta, email_taken, signed_in, refused, created, register, note_device,
  login_user, login,
}

-- A log-in without a fingerprint.
abbrev pub no_device : DeviceMeta
no_device = record { fingerprint = []; device_name = []; device_os = [] }

module _ (v : Service) (t : UserTable) (h : Hasher) where
  open t use {State, find_by_email, create, create_some}

  -- If an address is free and the user can be created, `register` signs the new user in, of the role
  -- USER; afterwards `login` by the same address and password, without a fingerprint, signs the same
  -- user in and changes nothing, and one more `register` by that address is refused.
  pub register-login :
      (now later salt salt' : ℕ) (uuid uuid' email password password' : Text) (s s' : State)
      (u : User)
      → find_by_email email s ≡ none
      → create email (h.hash salt password) s ≡ some (u, s')
      → (register v t h now uuid salt email password s ≡ (signed_in u (mint v now uuid u), s'))
        × (u.role ≡ user)
        × (login v t h later uuid' email password no_device s'
            ≡ (signed_in u (mint v later uuid' u), s'))
        × (register v t h later uuid' salt' email password' s' ≡ (refused email_taken, s'))
  unfolding register created login login_user note_device
  register-login now later salt salt' uuid uuid' email password password' s s' u free made =
      let (mail, hashed, role, found, others) =
        create_some email (h.hash salt password) s s' u made in
      (
        rw (free, register) (rw (made, created) refl),
        role,
        rw (found, login) (rw (hashed, login_user) (rw (h.compare_hash salt password) refl)),
        rw (found, register) refl,
      )
