-- ===== src/Network/DownloadTests.antt =====
-- A download (src/network/helpers/HTTPDownloader.cpp) of an answer that comes in two reads.
use understory.Base.{ℕ, ◌≡◌, refl, List, [], ◌∷◌, some, arith, if◌then◌else◌}
use understory.Base.Decimal.{value}
use understory.Base.Strings.{same}
use understory.Network.Download.{
  downloaded, not_a_file, read_response, read_until, read_headers, skip_status, starts_with,
  contains, read_rest, connect_any, download_http_file,
}
use understory.Network.Download.Body.{rendered, announced}
use understory.Network.Download.Response.{body_iff_announced}

abbrev version : List ℕ
version = 72 ∷ 84 ∷ 84 ∷ 80 ∷ 47 ∷ 49 ∷ 46 ∷ 48 ∷ []

abbrev digits : List ℕ
digits = 52 ∷ 48 ∷ 52 ∷ []

abbrev header : List ℕ
header =
    67 ∷ 111 ∷ 110 ∷ 116 ∷ 101 ∷ 110 ∷ 116 ∷ 45 ∷ 76 ∷ 101 ∷ 110 ∷ 103 ∷ 116 ∷ 104 ∷ 58 ∷ 32 ∷ 57
    ∷ []

abbrev answer : List (List ℕ)
answer =
    (72 ∷ 84 ∷ 84 ∷ 80 ∷ 47 ∷ 49 ∷ 46 ∷ 48 ∷ 32 ∷ 52 ∷ 48 ∷ 52 ∷ 32 ∷ 78 ∷ 13 ∷ 10 ∷ 67 ∷ 111 ∷ 110
      ∷ 116 ∷ [])
    ∷ (101 ∷ 110 ∷ 116 ∷ 45 ∷ 76 ∷ 101 ∷ 110 ∷ 103 ∷ 116 ∷ 104 ∷ 58 ∷ 32 ∷ 57 ∷ 13 ∷ 10 ∷ 13 ∷ 10
        ∷ 104 ∷ 105 ∷ [])
    ∷ []

-- A status of 404, and a length that is not the body's.
reads_answer : read_response answer ≡ downloaded (104 ∷ 105 ∷ [])
unfolding read_response read_until skip_status read_headers contains starts_with read_rest value
    same
reads_answer = refl

body_iff_announced_example :
    read_response answer
    ≡ (if announced (header ∷ []) then downloaded (104 ∷ 105 ∷ []) else not_a_file)
unfolding rendered contains starts_with value
body_iff_announced_example =
    body_iff_announced version digits (78 ∷ []) (104 ∷ 105 ∷ []) header [] answer
      (
        (refl, (refl, (refl, (refl, (refl, (refl, (refl, (refl, tt)))))))),
        refl,
        (refl, (refl, (refl, tt))),
        refl,
        (omega arith),
        (refl, tt),
      )
      (
        refl,
        (
          refl,
          (
            refl,
            (
              refl,
              (
                refl,
                (
                  refl,
                  (
                    refl,
                    (
                      refl,
                      (
                        refl,
                        (refl, (refl, (refl, (refl, (refl, (refl, (refl, (refl, (refl, tt))))))))),
                      ),
                    ),
                  ),
                ),
              ),
            ),
          ),
        ),
        tt,
      )
      (refl, (refl, tt)) refl

-- The first endpoint refuses the connection.
second_endpoint :
    download_http_file (λ (e : ℕ). e) (λ name. some (1, 0 ∷ [])) (λ e sent. answer) [] []
    ≡ downloaded (104 ∷ 105 ∷ [])
unfolding download_http_file connect_any read_response read_until skip_status read_headers contains
    starts_with read_rest value same
second_endpoint = refl
