-- ===== src/Web/Console/Laws.antt =====
-- Keys that are created and revoked, and made-up answers that come late.
use proxy_redirector.Prelude.{
  ℕ, ◌≡◌, refl, false, not, Option, some, List, [], ◌∷◌, ◌++◌, map, filter, arith,
}
use proxy_redirector.Text.{Text, codes, text_eq, decimal}
use proxy_redirector.Text.Laws.{text_eq_refl}
use proxy_redirector.Dashboard.Table.Selection.{has}
use proxy_redirector.Web.Session.Machine.{take_at}
use proxy_redirector.Web.Console.{
  ApiKey, Console, unreachable, answered, new_key, create_key, revoke_key, execute_test, end_test,
  end_timer, execute, test_ends, timer_ends, step, run,
}

revoke_others :
    (id : Text) (ks : List ApiKey)
    → has (map (λ k. k.id) ks) id ≡ false
    → filter (λ k. not (text_eq k.id id)) ks ≡ ks
revoke_others id [] h = refl
revoke_others id (k ∷ ks) h = ground (arith, revoke_others id ks)

-- If no key was created at the same moment, revoking a key that was just created leaves the keys that
-- were there before, and no others.
pub revoke_key-create_key :
    (random day : Text) (now : ℕ) (c : Console)
    → has (map (λ k. k.id) c.api_keys) (codes "key_" ++ decimal now) ≡ false
    → (revoke_key (codes "key_" ++ decimal now) (create_key random now day c)).api_keys ≡ c.api_keys
unfolding revoke_key create_key new_key
revoke_key-create_key random day now c fresh =
    rw (text_eq_refl (codes "key_" ++ decimal now)) (revoke_others _ c.api_keys fresh)

-- If the server can not be reached for a request of the console, and answers the next one before the
-- timer of the first ends, then the console ends with the status 200 in place of that answer's.
pub late_mock_answer :
    (c : Console) (token : Option Text) (code : ℕ) (body : Text)
    → c.requests ≡ []
    → c.timers ≡ []
    → let es =
        execute token
        ∷ test_ends 0 unreachable
        ∷ execute token
        ∷ test_ends 0 (answered code body)
        ∷ [] in
      ((run es c).status ≡ some code) × ((run (es ++ timer_ends 0 ∷ []) c).status ≡ some 200)
unfolding run step execute_test end_test end_timer take_at
late_mock_answer c token code body r t = ground arith
