-- ===== src/Consensus/Authority.antt =====
-- src/tor/dir/authority.rs, `Authority`, `AUTHORITIES` and `required_signatures`. An identity of 20 bytes is a
-- number, since the code only compares it.
use rust_tor_proxy.Prelude.{ℕ, ◌+◌, ◌/◌, Bool, String, List, [], ◌∷◌, any, length, ◌==◌}

pub record Authority : Type 0 where
  pub nickname : String
  pub v3ident : ℕ
  pub rsa_identity : ℕ
  pub ipv4 : ℕ × ℕ × ℕ × ℕ
  pub dir_port : ℕ
  pub or_port : ℕ

-- `AUTHORITIES`
abbrev pub authorities : List Authority
authorities =
    record {
      nickname = "moria1";
      v3ident = 0xf533c81cef0bc0267857c99b2f471adf249fa232;
      rsa_identity = 0x1a25c6358db91342aa51720a5038b72742732498;
      ipv4 = (128, 31, 0, 39);
      dir_port = 9231;
      or_port = 9201;
    }
    ∷ record {
      nickname = "tor26";
      v3ident = 0x2f3df9ca0e5d36f2685a2da67184eb8dcb8cba8c;
      rsa_identity = 0xfaa4bca4a6ac0fb4ca2f8ad5a11d9e122ba894f6;
      ipv4 = (217, 196, 147, 77);
      dir_port = 80;
      or_port = 443;
    }
    ∷ record {
      nickname = "dizum";
      v3ident = 0xe8a9c45ede6d711294fadf8e7951f4de6ca56b58;
      rsa_identity = 0x7ea6ead6fd83083c538f44038bbfa077587dd755;
      ipv4 = (45, 66, 35, 11);
      dir_port = 80;
      or_port = 443;
    }
    ∷ record {
      nickname = "gabelmoo";
      v3ident = 0xed03bb616eb2f60bec80151114bb25cef515b226;
      rsa_identity = 0xf2044413dac2e02e3d6bcf4735a19bca1de97281;
      ipv4 = (131, 188, 40, 189);
      dir_port = 80;
      or_port = 443;
    }
    ∷ record {
      nickname = "dannenberg";
      v3ident = 0x0232af901c31a04ee9848595af9bb7620d4c5b2e;
      rsa_identity = 0x7be683e65d48141321c5ed92f075c55364ac7123;
      ipv4 = (193, 23, 244, 244);
      dir_port = 80;
      or_port = 443;
    }
    ∷ record {
      nickname = "maatuska";
      v3ident = 0x49015f787433103580e3b66a1707a00e60f2d15b;
      rsa_identity = 0xbd6a829255cb08e66fbe7d3748363586e46b3810;
      ipv4 = (171, 25, 193, 9);
      dir_port = 443;
      or_port = 80;
    }
    ∷ record {
      nickname = "longclaw";
      v3ident = 0x23d15d965bc35114467363c165c4f724b64b4f66;
      rsa_identity = 0x74a910646bceefbcd2e874fc1dc997430f968145;
      ipv4 = (199, 58, 81, 140);
      dir_port = 80;
      or_port = 443;
    }
    ∷ record {
      nickname = "bastet";
      v3ident = 0x27102bc123e7af1d4741ae047e160c91adc76b21;
      rsa_identity = 0x24e2f139121d4394c54b5bcc368b3b411857c413;
      ipv4 = (204, 13, 164, 118);
      dir_port = 80;
      or_port = 443;
    }
    ∷ record {
      nickname = "faravahar";
      v3ident = 0x70849b868d606baecfb6128c5e3d782029aa394f;
      rsa_identity = 0xe3e42d35f801c9d5ab23584e0025d56fe2b33396;
      ipv4 = (216, 218, 219, 41);
      dir_port = 80;
      or_port = 443;
    }
    ∷ []

-- `required_signatures`
abbrev pub required_signatures : ℕ
required_signatures = length authorities / 2 + 1

-- Whether an authority has the identity.
abbrev pub is_authority : ℕ → Bool
is_authority v3ident = any (λ a. a.v3ident == v3ident) authorities
