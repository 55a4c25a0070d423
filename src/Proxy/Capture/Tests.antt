-- ===== src/Proxy/Capture/Tests.antt =====
-- Runs of the capturer.
use devhub.Prelude.{ℕ, ◌≡◌, refl, List, [], ◌∷◌, true, take, codes, replicate, length-replicate}
use devhub.Proxy.Capture.{ResponseCapturer, max_capture_size, reset_capturer, string, reset, write}
use devhub.Proxy.Capture.Calls.{
  Op, header_op, body_op, flush_op, run, written, first_status, headers, bodies, status_or, as_list,
}
use devhub.Proxy.Capture.Written.{run-captures}

abbrev pooled : ResponseCapturer
pooled = record {
  sent = [];
  can_flush = true;
  status_code = 500;
  captured = record { bytes = replicate max_capture_size 0; len = 7 };
  wrote_head = true;
}

abbrev response : List Op
response = body_op (codes "created") ∷ header_op 201 ∷ flush_op ∷ body_op (codes " twice") ∷ []

small :
    string (write (reset record { bytes = codes "olddata"; len = 3 }) (codes "new")) ≡ codes "new"
unfolding string write reset
small = refl

run-captures_example :
    let r' = run (reset_capturer pooled true) response in
    (string r'.captured ≡ take max_capture_size (written response))
    × ((r'.status_code ≡ status_or 200 (first_status response))
        × ((headers r'.sent ≡ as_list (first_status response))
            × (bodies r'.sent ≡ written response)))
run-captures_example =
    run-captures pooled true response (length-replicate {A = ℕ} max_capture_size 0)
