-- ===== src/Request/Tests.antt =====
-- Runs of the request identifiers.
use skc_library.Base.{ℕ, ◌+◌, ◌*◌, ◌≡◌, refl, codes}
use skc_library.Request.{keyagent_generate_request_id}
use skc_library.Request.Format.{IsUuid4, keyagent_generate_request_id-IsUuid4}

-- A source of words that counts up.
abbrev counter : ℕ → ℕ × ℕ
counter w = (w * 0x01020304, w + 1)

generated :
    (keyagent_generate_request_id counter 1).0 ≡ codes "04030201-0806-4402-8c09-0603100c0804"
unfolding keyagent_generate_request_id
generated = refl

keyagent_generate_request_id-IsUuid4_example : IsUuid4 (keyagent_generate_request_id counter 1).0
keyagent_generate_request_id-IsUuid4_example = keyagent_generate_request_id-IsUuid4 counter 1
