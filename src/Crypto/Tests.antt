-- ===== src/Crypto/Tests.antt =====
-- The ciphers on concrete keys.
use rever_ssh.Prelude.{
  ◌+◌, ◌%◌, ◌^◌, ◌≡◌, refl, All, replicate, codes, length, take, drop, bit_and, arith,
}
use rever_ssh.Exn.{ok}
use rever_ssh.Bytes.{Bytes, IsByte}
use rever_ssh.Bytes.Endian.{to_le, from_le}
use rever_ssh.Crypto.Chacha.{chacha20_xor}
use rever_ssh.Crypto.Chacha.Stream.{chacha20_xor-chacha20_xor, chacha20_xor_total}
use rever_ssh.Crypto.Poly1305.{poly1305_mac, clamp, prime}
use rever_ssh.Crypto.Poly1305.Polynomial.{poly1305_mac_lem, polynomial, chunks}

abbrev key : Bytes
key = replicate 32 9

abbrev nonce : Bytes
nonce = replicate 8 3

abbrev hello : Bytes
hello = codes "hello"

abbrev hello-IsByte : All IsByte hello
hello-IsByte = omega arith

chacha20_xor_total_example : (out : Bytes) × (chacha20_xor key nonce 1 hello ≡ ok out)
chacha20_xor_total_example = chacha20_xor_total key nonce 1 hello refl refl

abbrev sealed : (out : Bytes) × (chacha20_xor key nonce 1 hello ≡ ok out)
sealed = chacha20_xor_total key nonce 1 hello refl refl

chacha20_xor-chacha20_xor_example :
    (length sealed.0 ≡ 5) × All IsByte sealed.0 × (chacha20_xor key nonce 1 sealed.0 ≡ ok hello)
chacha20_xor-chacha20_xor_example =
    chacha20_xor-chacha20_xor key nonce 1 hello sealed.0 hello-IsByte sealed.1

poly1305_mac_lem_example :
    poly1305_mac hello key
    ≡ ok (
        to_le 16 (
          (polynomial (bit_and (from_le (take 16 key)) clamp) (chunks 5 hello) % prime
            + from_le (drop 16 key))
          % 2 ^ 128))
poly1305_mac_lem_example = poly1305_mac_lem hello key refl
